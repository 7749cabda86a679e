-- ===== src/Agent/Releasing.antt =====
-- project-agent.ts: when the slot is released, and that the shutdown comes to its end.
use ai_support_agent_cli.Common.{
  ◌≤◌, Bool, true, false, not, Option, none, some, List, [], ◌∷◌, String, ◌≡◌, ◌≢◌, refl, sym, ◌∙◌,
  inl, inr, arith, Bool-cases, filter, is_empty, str_eq, eq_iff, member, member-add,
}
use ai_support_agent_cli.Transport.{TransportDeps, World}
use ai_support_agent_cli.Transport.Moves
use ai_support_agent_cli.Transport.Draining.{Drained, Move-Drained}
use ai_support_agent_cli.Agent.State.{Shutdown, not_called, draining, releasing, done, Agent}
use ai_support_agent_cli.Agent.Registering.{
  end_loop, enter_loop, start, cancel_register_loop, clear_alert_timers, stop_work, stop,
  restart_register_loop, admitted, on_connected,
}
use ai_support_agent_cli.Agent.Leaving.{
  remaining, finish_shutdown, drain, do_shutdown, exclude, shut_down,
}
use ai_support_agent_cli.Agent.Runs.{Event, polls, released, on_poll, on_released, step, run, fresh}
use ai_support_agent_cli.Agent.Moves.{
  closing, Move, stays, ends, begins, forgets, tries, asks, asks_again, goes_on, gets_slot, serves,
  loses_slot, is_evicted, gets_token, excludes, closes, polls_now, lets_go, works_on, run-invariant,
}
use ai_support_agent_cli.Agent.Drained.{drain_elim}

-- Every command in flight is one that the shutdown does not wait for.
abbrev pub Idle : Agent → Type 0
Idle a = (k : String) → member k a.world.in_flight ≡ true → member k a.excluded ≡ true

none_remaining :
    (excluded flight : List String) (k : String)
    → is_empty (filter (λ id. not (member id excluded)) flight) ≡ true
    → member k flight ≡ true
    → member k excluded ≡ true
unfolding member
none_remaining excluded [] k e m = cc
none_remaining excluded (id ∷ flight) k e m = elim (Bool-cases (member id excluded)) [
  | inl out ↦ elim (Bool-cases (str_eq id k)) [
    | inl same ↦ rw (← (eq_iff id k).0 same) out
    | inr other ↦ none_remaining excluded flight k (rw out at e) (rw other at m)
  ]
  | inr counts ↦ absurd (clash (rw counts at e))
]
  where
    clash : false ≡ true → ⊥
    clash h = cc

-- What a shutdown has done at each stage.
abbrev Releases : Shutdown → Agent → Type 0
Releases not_called a = a.releases ≡ 0
Releases draining a = (a.releases ≡ 0) × (a.world.draining ≡ true)
Releases releasing a = (a.releases ≤ 1) × (a.world.draining ≡ true) × (a.releases ≢ 0 → Idle a)
Releases done a = (a.releases ≤ 1) × (a.world.draining ≡ true) × (a.releases ≢ 0 → Idle a)

abbrev Right : Agent → Type 0
Right a = Releases a.shutdown a

drain-Right :
    (expired : Bool) (a : Agent)
    → a.releases ≡ 0
    → a.world.draining ≡ true
    → Right (drain expired a)
drain-Right expired a none_yet d =
    drain_elim Right expired a
      (λ none_left held.
        (omega arith, d, λ _. λ k m. none_remaining a.excluded a.world.in_flight k none_left m))
      (omega arith, d, λ released. absurd (released none_yet)) (λ _. (none_yet, d))

drain_expired : (a : Agent) → is_empty (remaining a) ≡ false → drain true a ≡ finish_shutdown a
unfolding drain
drain_expired a e = rw e refl

module _ (deps : TransportDeps) where
  -- Only the stage, the two lists and the counter matter.
  same_right :
      (s : Shutdown) (a b : Agent)
      → a.releases ≡ b.releases
      → a.world ≡ b.world
      → a.excluded ≡ b.excluded
      → Releases s a
      → Releases s b
  same_right not_called a b r w x h = sym r ∙ h
  same_right draining a b r w x (h, d) = (sym r ∙ h, rw w at d)
  same_right releasing a b r w x (h, d, i) =
      (rw r at h, rw w at d, λ n. λ k m. rw x at (i (λ z. n (sym r ∙ z)) k (rw (← w) at m)))
  same_right done a b r w x (h, d, i) =
      (rw r at h, rw w at d, λ n. λ k m. rw x at (i (λ z. n (sym r ∙ z)) k (rw (← w) at m)))

  shrinks :
      (w w' : World)
      → Drained w w'
      → (k : String) → member k w'.in_flight ≡ true
      → member k w.in_flight ≡ true
  shrinks w w' (d, free) k m = elim (Bool-cases (member k w.in_flight)) [
    | inl there ↦ there
    | inr absent ↦ absurd (clash (sym (free k absent) ∙ m))
  ]
    where
      clash : false ≡ true → ⊥
      clash h = cc

  work-Right :
      (s : Shutdown) (a : Agent) (w : World)
      → (a.world.draining ≡ true → Drained a.world w)
      → Releases s a
      → Releases s (record a { world = w })
  work-Right not_called a w f h = h
  work-Right draining a w f (h, d) = (h, (f d).0)
  work-Right releasing a w f (h, d, i) =
      (h, (f d).0, λ n. λ k m. i n k (shrinks a.world w (f d) k m))
  work-Right done a w f (h, d, i) = (h, (f d).0, λ n. λ k m. i n k (shrinks a.world w (f d) k m))

  exclude-Right :
      (s : Shutdown) (id : Option String) (a : Agent) → Releases s a → Releases s (exclude id a)
  exclude-Right not_called id a h = h
  exclude-Right draining id a h = h
  exclude-Right releasing id a (h, d, i) = (h, d, λ n. λ k m. grows id k (i n k m))
    where
      grows :
          (id : Option String) (k : String)
          → member k a.excluded ≡ true
          → member k (exclude id a).excluded ≡ true
      grows none k m = m
      grows (some s) k m = rw (member-add s k a.excluded, m) (ground arith)
  exclude-Right done id a (h, d, i) = (h, d, λ n. λ k m. grows id k (i n k m))
    where
      grows :
          (id : Option String) (k : String)
          → member k a.excluded ≡ true
          → member k (exclude id a).excluded ≡ true
      grows none k m = m
      grows (some s) k m = rw (member-add s k a.excluded, m) (ground arith)

  Move-Right : (a b : Agent) → Move deps a b → Right a → Right b
  unfolding end_loop admitted on_connected restart_register_loop stop cancel_register_loop stop_work
      clear_alert_timers
  Move-Right a _ stays h = h
  Move-Right a _ (ends attempt) h = same_right a.shutdown a _ refl refl refl h
  Move-Right a _ (begins number r e g i) h = same_right a.shutdown a _ refl refl refl h
  Move-Right a _ (forgets number) h = same_right a.shutdown a _ refl refl refl h
  Move-Right a _ (tries o) h = same_right a.shutdown a _ refl refl refl h
  Move-Right a _ (asks at) h = same_right a.shutdown a _ refl refl refl h
  Move-Right a _ (asks_again at o) h = same_right a.shutdown a _ refl refl refl h
  Move-Right a _ (goes_on w n r f b q) h = same_right a.shutdown a _ refl refl refl h
  Move-Right a _ (gets_slot r b) h = same_right a.shutdown a _ refl refl refl h
  Move-Right a _ (serves alerts at) h = same_right a.shutdown a _ refl refl refl h
  Move-Right a _ loses_slot h = same_right a.shutdown a _ refl refl refl h
  Move-Right a _ (is_evicted n o) h = same_right a.shutdown a _ refl refl refl h
  Move-Right a _ (gets_token token n) h = same_right a.shutdown a _ refl refl refl h
  Move-Right a _ (excludes id) h = exclude-Right a.shutdown id a h
  Move-Right a _ (closes id expired n) h =
      drain-Right expired (closing (exclude id a)) (rw n at h) refl
  Move-Right a _ (polls_now expired d) h =
      let (none_yet, closed) = rw d at h in drain-Right expired a none_yet closed
  Move-Right a _ (lets_go d) h = let (most, closed, idle) = rw d at h in (most, closed, idle)
  Move-Right a _ (works_on e) h =
      work-Right a.shutdown a _
        (λ d. Move-Drained deps a.world a.world _ (Moves.step-Move deps a.world e) (d, λ k f. f)) h

  counted : (s : Shutdown) (a : Agent) → Releases s a → (a.releases ≤ 1) × (a.releases ≢ 0 → Idle a)
  counted not_called a h = (omega arith, λ n. absurd (n h))
  counted draining a (h, d) = (omega arith, λ n. absurd (n h))
  counted releasing a (h, d, i) = (h, i)
  counted done a (h, d, i) = (h, i)

  -- The slot is released at most once, and once it has been, every command in flight is one that a call of
  -- `shutdown` named as its own, then and ever after.
  pub run-releases :
      (token : String) (world : World) (events : List Event)
      → let a = run deps (start (fresh token world)) events in
        (a.releases ≤ 1) × (a.releases ≢ 0 → Idle a)
  unfolding start enter_loop
  run-releases token world events =
      let a = run deps (start (fresh token world)) events in
      counted a.shutdown a
        (run-invariant deps Right Move-Right (start (fresh token world)) events refl)

  -- Whatever an agent is doing when `shutdown` is called, the shutdown is over once its deadline has passed and
  -- the call of `releaseSelf` has returned, if there was one, and the transport is down then.
  pub shut_down-finishes :
      (a : Agent) (id : Option String) (expired : Bool)
      → a.shutdown ≡ not_called
      → let b = run deps (shut_down id expired a) (polls true ∷ released ∷ []) in
        (b.shutdown ≡ done) × (b.transport_up ≡ false)
  unfolding run step shut_down do_shutdown cancel_register_loop clear_alert_timers
  shut_down-finishes a id expired open_now = rw open_now (
      drain_elim
        (λ c.
          let b = on_released (on_poll true c) in (b.shutdown ≡ done) × (b.transport_up ≡ false))
        expired (closing (exclude id a)) (λ _ _. (refl, refl)) (refl, refl)
        (λ some_left. rw (drain_expired (closing (exclude id a)) some_left) (refl, refl)))
