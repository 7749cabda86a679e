-- ===== src/Agent/Closing.antt =====
-- project-agent.ts: what cannot happen any more once `shutdown` has been called.
use ai_support_agent_cli.Common.{
  ℕ, suc, ◌+◌, ◌≤◌, ◌<◌, Bool, true, false, not, Option, some, List, [], ◌∷◌, String, ◌≡◌, ◌≢◌,
  refl, inl, inr, arith, if_elim, Bool-cases, All, All-map, filter, ◌==◌, member, some-inj,
}
use mathlib.Core.Path.{subst}
use ai_support_agent_cli.Transport.{TransportDeps, World}
use ai_support_agent_cli.Transport.Moves
use ai_support_agent_cli.Transport.Draining.{Drained, Move-Drained}
use ai_support_agent_cli.Agent.State.{
  Wait, refreshing, registering, parked, asking_again, recovering, syncing, resting, connecting,
  backing_off, Restart, not_called, Mark, asked, evicted, serving, Agent,
}
use ai_support_agent_cli.Agent.Registering.{
  end_loop, enter_loop, start, cancel_register_loop, clear_alert_timers, stop_work, stop,
  restart_register_loop, admitted, on_connected,
}
use ai_support_agent_cli.Agent.Leaving.{do_shutdown, exclude, shut_down, find_restart}
use ai_support_agent_cli.Agent.Runs.{Event, run, fresh}
use ai_support_agent_cli.Agent.Moves.{
  is_quiet, closing, Move, stays, ends, begins, forgets, tries, asks, asks_again, goes_on,
  gets_slot, serves, loses_slot, is_evicted, gets_token, excludes, closes, polls_now, lets_go,
  works_on, run-invariant,
}
use ai_support_agent_cli.Agent.Drained.{drain_elim}

-- How many calls of `register` a log has, and whether the loop is about to make its first.
abbrev pub asked_in : List Mark → ℕ
asked_in [] = 0
asked_in (asked m ∷ marks) = suc (asked_in marks)
asked_in (evicted ∷ marks) = asked_in marks
asked_in (serving ∷ marks) = asked_in marks

abbrev pub about_to_ask : Option Wait → ℕ
about_to_ask (some refreshing) = 1
about_to_ask _ = 0

pub found-All :
    (P : Restart → Type 0) (number : ℕ) (rs : List Restart) {r : Restart}
    → All P rs
    → find_restart number rs ≡ some r
    → P r
found-All P number [] h e = cc
found-All P number (x ∷ rs) {r} (p, h) e = elim (Bool-cases (x.number == number)) [
  | inl here ↦ subst P (some-inj (rw here at e)) p
  | inr elsewhere ↦ found-All P number rs h (rw elsewhere at e)
]

pub forgotten-All :
    (P : Restart → Type 0) (number : ℕ) (rs : List Restart)
    → All P rs
    → All P (filter (λ r. not (r.number == number)) rs)
forgotten-All P number [] h = tt
forgotten-All P number (x ∷ rs) (p, h) =
    if_elim (All P) (not (x.number == number)) (x ∷ filter (λ r. not (r.number == number)) rs)
      (filter (λ r. not (r.number == number)) rs) (λ _. (p, forgotten-All P number rs h))
      (λ _. forgotten-All P number rs h)

-- No restart is of a later generation than the agent.
abbrev Timely : Agent → Type 0
Timely a = All (λ r. r.generation ≤ a.generation) a.restarts

abbrev pub Closed : World → ℕ → ℕ → Agent → Type 0
Closed before n most a =
    (a.shutdown ≢ not_called)
    × (a.cancelled ≡ true)
    × All (λ r. r.generation < a.generation) a.restarts
    × Drained before a.world
    × (a.loops ≡ n)
    × (asked_in a.log + about_to_ask a.waiting ≤ most)

quiet_asks : (w : Wait) → is_quiet w ≡ true → about_to_ask (some w) ≡ 0
quiet_asks refreshing q = cc
quiet_asks registering q = refl
quiet_asks parked q = refl
quiet_asks asking_again q = refl
quiet_asks (recovering r) q = refl
quiet_asks (syncing r n) q = refl
quiet_asks (resting r n) q = refl
quiet_asks connecting q = refl
quiet_asks (backing_off d) q = refl

module _ (deps : TransportDeps) where
  later : (n : ℕ) (r : Restart) → r.generation ≤ n → r.generation ≤ suc n
  later n r h = omega arith

  Move-Timely : (a b : Agent) → Move deps a b → Timely a → Timely b
  unfolding end_loop admitted on_connected restart_register_loop stop cancel_register_loop stop_work
      clear_alert_timers
  Move-Timely a _ stays h = h
  Move-Timely a _ (ends attempt) h = h
  Move-Timely a _ (begins number r e g i) h = forgotten-All _ r.number a.restarts h
  Move-Timely a _ (forgets number) h = forgotten-All _ number a.restarts h
  Move-Timely a _ (tries o) h = h
  Move-Timely a _ (asks at) h = h
  Move-Timely a _ (asks_again at o) h = h
  Move-Timely a _ (goes_on w n r f b q) h = h
  Move-Timely a _ (gets_slot r b) h = h
  Move-Timely a _ (serves alerts at) h = h
  Move-Timely a _ loses_slot h = h
  Move-Timely a _ (is_evicted n o) h = (omega arith, All-map (later a.generation) a.restarts h)
  Move-Timely a _ (gets_token token n) h = (omega arith, All-map (later a.generation) a.restarts h)
  Move-Timely a _ (excludes id) h = h
  Move-Timely a _ (closes id expired n) h =
      let h' = All-map (later a.generation) a.restarts h in
      drain_elim Timely expired (closing (exclude id a)) (λ _ _. h') h' (λ _. h')
  Move-Timely a _ (polls_now expired d) h = drain_elim Timely expired a (λ _ _. h) h (λ _. h)
  Move-Timely a _ (lets_go d) h = h
  Move-Timely a _ (works_on e) h = h

  module _ (before : World) (count most : ℕ) where
    Move-Closed :
        (a b : Agent) → Move deps a b → Closed before count most a → Closed before count most b
    unfolding end_loop admitted on_connected restart_register_loop stop cancel_register_loop
        stop_work clear_alert_timers
    Move-Closed a _ stays h = h
    Move-Closed a _ (ends attempt) (s, c, r, d, l, n) = (s, c, r, d, l, omega arith)
    Move-Closed a _ (begins number r e g i) (s, c, rs, d, l, n) =
        absurd (
          omega
            (arith, found-All (λ r. r.generation < a.generation) number a.restarts {r = r} rs e))
    Move-Closed a _ (forgets number) (s, c, r, d, l, n) =
        (s, c, forgotten-All _ number a.restarts r, d, l, n)
    Move-Closed a _ (tries o) (s, c, r, d, l, n) = cc
    Move-Closed a _ (asks at) (s, c, r, d, l, n) =
        let n' = rw at at n in (s, c, r, d, l, omega arith)
    Move-Closed a _ (asks_again at o) (s, c, r, d, l, n) = cc
    Move-Closed a _ (goes_on w m r' f b q) (s, c, r, d, l, n) =
        (s, c, r, d, l, omega (arith, quiet_asks w q))
    Move-Closed a _ (gets_slot r' b) (s, c, r, d, l, n) = (s, c, r, d, l, omega arith)
    Move-Closed a _ (serves alerts at) (s, c, r, d, l, n) = (s, c, r, d, l, omega arith)
    Move-Closed a _ loses_slot h = h
    Move-Closed a _ (is_evicted k o) (s, c, r, d, l, n) = absurd (s k)
    Move-Closed a _ (gets_token token k) (s, c, r, d, l, n) = absurd (s k)
    Move-Closed a _ (excludes id) h = h
    Move-Closed a _ (closes id expired k) (s, c, r, d, l, n) = absurd (s k)
    Move-Closed a _ (polls_now expired k) (s, c, r, d, l, n) =
        drain_elim (Closed before count most) expired a (λ _ _. ((λ e. cc), c, r, d, l, n))
          ((λ e. cc), c, r, d, l, n) (λ _. ((λ e. cc), c, r, d, l, n))
    Move-Closed a _ (lets_go k) (s, c, r, d, l, n) = ((λ e. cc), c, r, d, l, n)
    Move-Closed a _ (works_on e) (s, c, r, d, l, n) =
        (s, c, r, Move-Drained deps before a.world _ (Moves.step-Move deps a.world e) d, l, n)

  -- After `shutdown`, from any state that can be reached.
  pub Closed-after :
      (token : String) (world : World) (earlier events : List Event) (id : Option String)
      (expired : Bool)
      → (run deps (start (fresh token world)) earlier).shutdown ≡ not_called
      → let a = run deps (start (fresh token world)) earlier in
        Closed a.world a.loops
          (asked_in a.log + about_to_ask a.waiting)
          (run deps (shut_down id expired a) events)
  unfolding start enter_loop shut_down do_shutdown cancel_register_loop clear_alert_timers
  Closed-after token world earlier events id expired open_now =
      let a = run deps (start (fresh token world)) earlier in
      let most = asked_in a.log + about_to_ask a.waiting in
      let timely = run-invariant deps Timely Move-Timely (start (fresh token world)) earlier tt in
      let stale =
        All-map {Q = λ (r : Restart). r.generation < suc a.generation} (λ r h. omega arith)
          a.restarts timely in
      let shut : Closed a.world a.loops most (do_shutdown expired (exclude id a)) =
        drain_elim (Closed a.world a.loops most) expired (closing (exclude id a))
          (λ _ _. ((λ e. cc), refl, stale, (refl, λ k f. f), refl, omega arith))
          ((λ e. cc), refl, stale, (refl, λ k f. f), refl, omega arith)
          (λ _. ((λ e. cc), refl, stale, (refl, λ k f. f), refl, omega arith)) in
      run-invariant deps (Closed a.world a.loops most) (Move-Closed a.world a.loops most)
        (shut_down id expired a) events (rw open_now shut)

  -- Say that `shutdown` is called for the first time, after anything that can have happened. Whatever happens
  -- then, the register loop is not called again; `register` is called at most once more, and only if
  -- the loop was about to call it; and no command is taken that was not in flight.
  pub shut_down-silences :
      (token : String) (world : World) (earlier events : List Event) (id : Option String)
      (expired : Bool)
      → (run deps (start (fresh token world)) earlier).shutdown ≡ not_called
      → let a = run deps (start (fresh token world)) earlier in
        let b = run deps (shut_down id expired a) events in
        (b.loops ≡ a.loops)
        × (asked_in b.log ≤ asked_in a.log + about_to_ask a.waiting)
        × ((k : String) → member k a.world.in_flight ≡ false → member k b.world.in_flight ≡ false)
  shut_down-silences token world earlier events id expired open_now =
      let (s, c, r, (d, free), l, n) =
        Closed-after token world earlier events id expired open_now in
      (l, omega arith, free)
