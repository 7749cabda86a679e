-- ===== src/Transport/Draining.antt =====
-- agent-transport.ts: what draining promises, and that every run that ends leaves nothing behind.
use ai_support_agent_cli.Common.{
  true, false, List, String, ◌≡◌, refl, sym, ◌∙◌, arith, member, erase, member-erase,
}
use ai_support_agent_cli.Transport.{
  TransportDeps, World, Event, finish, discard, save_and_send, run,
}
use ai_support_agent_cli.Transport.Moves.{
  Move, stays, drains_now, begins, starts, reports, answers, fails, quits, drops, loses,
  run-invariant, remember_only,
}

-- A state of a draining process that has taken no command that was not in flight in `before`.
abbrev pub Drained : World → World → Type 0
Drained before w =
    (w.draining ≡ true)
    × ((k : String) → member k before.in_flight ≡ false → member k w.in_flight ≡ false)

module _ (deps : TransportDeps) (before : World) where
  Drained-erase :
      (id : String) (flight : List String)
      → ((k : String) → member k before.in_flight ≡ false → member k flight ≡ false)
      → (k : String) → member k before.in_flight ≡ false
      → member k (erase id flight) ≡ false
  Drained-erase id flight h k e = rw (member-erase id k flight) (ground (arith, h k e))

  pub Move-Drained : (w w' : World) → Move deps w w' → Drained before w → Drained before w'
  unfolding finish discard save_and_send
  Move-Drained w _ stays h = h
  Move-Drained w _ drains_now (d, h) = (refl, h)
  Move-Drained w _ (begins id o f) (d, h) = absurd (clash (sym o ∙ d))
    where
      clash : false ≡ true → ⊥
      clash h = cc
  Move-Drained w _ (starts id d at) h = let (assignments, e) = remember_only id d w in rw e h
  Move-Drained w _ (reports id disk e at) h = h
  Move-Drained w _ (answers id disk r at) h = h
  Move-Drained w _ (fails id disk e at) h = h
  Move-Drained w _ (quits id at k) (d, h) = (d, Drained-erase id w.in_flight h)
  Move-Drained w _ (drops id at k) (d, h) = (d, Drained-erase id w.in_flight h)
  Move-Drained w _ (loses id at) (d, h) = (d, Drained-erase id w.in_flight h)

  -- Once draining has begun it does not end, and whatever arrives afterwards, no command is taken that
  -- was not in flight already.
  pub run-Drained :
      (events : List Event) (k : String)
      → before.draining ≡ true
      → member k before.in_flight ≡ false
      → ((run deps before events).draining ≡ true)
        × (member k (run deps before events).in_flight ≡ false)
  run-Drained events k d e =
      let (d', h) = run-invariant deps (Drained before) Move-Drained before events (d, λ j f. f) in
      (d', h k e)
