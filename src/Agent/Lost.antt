-- ===== src/Agent/Lost.antt =====
-- project-agent.ts: a slot that the server gives to a replica in standby which is shutting down.
use ai_support_agent_cli.Common.{
  ℕ, ◌<◌, Bool, true, false, Option, none, some, List, String, ◌≡◌, ◌≢◌, refl, arith, All,
}
use ai_support_agent_cli.Transport.{TransportDeps, World}
use ai_support_agent_cli.Agent.State.{Response, asking_again, not_called, Agent}
use ai_support_agent_cli.Agent.Registering.{
  end_loop, start, cancel_register_loop, clear_alert_timers, stop_work, stop, restart_register_loop,
  admitted, on_asked_again, on_connected,
}
use ai_support_agent_cli.Agent.Leaving.{shut_down}
use ai_support_agent_cli.Agent.Runs.{Event, answers, step, run, fresh}
use ai_support_agent_cli.Agent.Moves.{
  Move, stays, ends, begins, forgets, tries, asks, asks_again, goes_on, gets_slot, serves,
  loses_slot, is_evicted, gets_token, excludes, closes, polls_now, lets_go, works_on, run-invariant,
}
use ai_support_agent_cli.Agent.Drained.{drain_elim}
use ai_support_agent_cli.Agent.Closing.{found-All, forgotten-All, Closed-after}

-- The loop has ended for good, and no slot is known of.
abbrev Lost : ℕ → Agent → Type 0
Lost count a =
    (a.shutdown ≢ not_called)
    × (a.cancelled ≡ true)
    × All (λ r. r.generation < a.generation) a.restarts
    × (a.waiting ≡ none)
    × (a.slot_held ≡ false)
    × (a.releases ≡ count)

module _ (deps : TransportDeps) where
  Move-Lost : (count : ℕ) (a b : Agent) → Move deps a b → Lost count a → Lost count b
  unfolding end_loop admitted on_connected restart_register_loop stop cancel_register_loop stop_work
      clear_alert_timers
  Move-Lost count a _ stays h = h
  Move-Lost count a _ (ends attempt) (s, c, r, w, h, n) = (s, c, r, refl, h, n)
  Move-Lost count a _ (begins number r e g i) (s, c, rs, w, h, n) =
      absurd
        (omega (arith, found-All (λ r. r.generation < a.generation) number a.restarts {r = r} rs e))
  Move-Lost count a _ (forgets number) (s, c, r, w, h, n) =
      (s, c, forgotten-All _ number a.restarts r, w, h, n)
  Move-Lost count a _ (tries o) (s, c, r, w, h, n) = cc
  Move-Lost count a _ (asks at) (s, c, r, w, h, n) = cc
  Move-Lost count a _ (asks_again at o) (s, c, r, w, h, n) = cc
  Move-Lost count a _ (goes_on w' m f g b q) (s, c, r, w, h, n) = absurd (b w)
  Move-Lost count a _ (gets_slot r' b) (s, c, r, w, h, n) = absurd (b w)
  Move-Lost count a _ (serves alerts at) (s, c, r, w, h, n) = cc
  Move-Lost count a _ loses_slot (s, c, r, w, h, n) = (s, c, r, w, refl, n)
  Move-Lost count a _ (is_evicted k o) (s, c, r, w, h, n) = absurd (s k)
  Move-Lost count a _ (gets_token token k) (s, c, r, w, h, n) = absurd (s k)
  Move-Lost count a _ (excludes id) h = h
  Move-Lost count a _ (closes id expired k) (s, c, r, w, h, n) = absurd (s k)
  Move-Lost count a _ (polls_now expired k) (s, c, r, w, h, n) =
      drain_elim (Lost count) expired a (λ _ held. cc) ((λ e. cc), c, r, w, h, n)
        (λ _. ((λ e. cc), c, r, w, h, n))
  Move-Lost count a _ (lets_go k) (s, c, r, w, h, n) = ((λ e. cc), c, r, w, h, n)
  Move-Lost count a _ (works_on e) h = h

  answered :
      (a : Agent) (r : Response)
      → a.shutdown ≢ not_called
      → a.cancelled ≡ true
      → All (λ r. r.generation < a.generation) a.restarts
      → a.waiting ≡ some asking_again
      → a.slot_held ≡ false
      → r.accepted ≡ true
      → Lost a.releases (step deps a (answers r))
  unfolding step on_asked_again end_loop
  answered a r s c rs at none_held yes_now =
      rw (at, yes_now, c) (s, refl, rs, refl, none_held, refl)

  -- Say that `shutdown` has been called while a replica was in standby, and that the call of `register` with
  -- which it was asking again for a slot returns then. When the server accepts it, the replica does not
  -- take note of its slot, and whatever happens afterwards, it never releases it.
  pub standby-loses_slot :
      (token : String) (world : World) (earlier between events : List Event) (id : Option String)
      (expired : Bool) (r : Response)
      → (run deps (start (fresh token world)) earlier).shutdown ≡ not_called
      → let a =
          run deps (shut_down id expired (run deps (start (fresh token world)) earlier)) between in
        a.waiting ≡ some asking_again
        → a.slot_held ≡ false
        → r.accepted ≡ true
        → ((run deps (step deps a (answers r)) events).slot_held ≡ false)
          × ((run deps (step deps a (answers r)) events).releases ≡ a.releases)
  standby-loses_slot token world earlier between events id expired r open_now at none_held yes_now =
      let a =
        run deps (shut_down id expired (run deps (start (fresh token world)) earlier)) between in
      let (s, c, rs, d, l, n) = Closed-after deps token world earlier between id expired open_now in
      let (s', c', rs', w, held, count) =
        run-invariant deps (Lost a.releases) (Move-Lost a.releases) (step deps a (answers r)) events
          (answered a r s c rs at none_held yes_now) in
      (held, count)
