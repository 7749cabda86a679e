-- ===== src/Children/Stopping.antt =====
-- child-process-manager.ts: `stopAll` ends the forking of children, and `stopProject` does not.
use ai_support_agent_cli.Common.{
  ℕ, true, Option, none, some, List, [], ◌∷◌, String, ◌≡◌, ◌≢◌, inl, inr, refl, Bool-cases,
  Option-cases, ◌==◌, lookup, All, any,
}
use ai_support_agent_cli.Children.{
  Manager, on_exit, find_timer, on_timer, clear_restart, stop_project, on_stop_timeout,
  send_token_update, on_started, stop_all, all_stopped, Event, forks_project, exits, fires, stops,
  stop_times_out, updates_token, starts, stops_all, ends_all, step, run,
}

-- The event forks no project.
abbrev pub Forkless : Event → Type 0
Forkless e = (key token : String) → e ≢ forks_project key token

abbrev pub Stopped : ℕ → Manager → Type 0
Stopped n m = (m.stopping ≡ true) × (m.forks ≡ n)

timer-Stopped : (n number : ℕ) (m : Manager) → Stopped n m → Stopped n (on_timer number m)
unfolding on_timer
timer-Stopped n number m (s, f) = elim (Option-cases (find_timer number m.armed)) [
  | inl e ↦ rw (on_timer, e) (s, f)
  | inr (t, e) ↦ rw (on_timer, e) (rw s (refl, f))
]

clear_restart-Stopped :
    (n : ℕ) (o : Option ℕ) (key : String) (m : Manager)
    → Stopped n m
    → Stopped n (clear_restart o key m)
clear_restart-Stopped n none key m h = h
clear_restart-Stopped n (some number) key m h = h

step-Stopped : (n : ℕ) (m : Manager) (e : Event) → Forkless e → Stopped n m → Stopped n (step m e)
unfolding step on_exit stop_project on_stop_timeout send_token_update on_started stop_all
    all_stopped
step-Stopped n m (forks_project key token) q h = absurd (q key token refl)
step-Stopped n m (exits key child) q (s, f) = rw s (refl, f)
step-Stopped n m (fires number) q h = timer-Stopped n number m h
step-Stopped n m (stops key) q h =
    let (s, f) = clear_restart-Stopped n (lookup key m.restart_timers) key m h in
    elim (Option-cases (lookup key m.processes)) [
      | inl e ↦ rw (stop_project, e) (s, f)
      | inr (i, e) ↦ rw (stop_project, e) (s, f)
    ]
step-Stopped n m (stop_times_out key child) q h =
    elim (Bool-cases (any (λ (w : String × ℕ). w.1 == child) m.waiting)) [
      | inl e ↦ rw e h
      | inr e ↦ rw e h
    ]
step-Stopped n m (updates_token key token) q h = elim (Option-cases (lookup key m.processes)) [
  | inl e ↦ rw (send_token_update, e) h
  | inr (i, e) ↦ rw (send_token_update, e) h
]
step-Stopped n m (starts key) q h = elim (Option-cases (lookup key m.processes)) [
  | inl e ↦ rw (on_started, e) h
  | inr (i, e) ↦ rw (on_started, e) h
]
step-Stopped n m stops_all q (s, f) = (refl, f)
step-Stopped n m ends_all q h = h

run-Stopped :
    (n : ℕ) (m : Manager) (es : List Event) → All Forkless es → Stopped n m → Stopped n (run m es)
unfolding run
run-Stopped n m [] a h = h
run-Stopped n m (e ∷ es) (q, a) h = run-Stopped n (step m e) es a (step-Stopped n m e q h)

-- Once `stopAll` has been called, no exit, no timer and nothing else that happens starts another child,
-- unless a project is forked anew.
pub stop_all-forks :
    (m : Manager) (es : List Event)
    → All Forkless es
    → ((run (stop_all m) es).stopping ≡ true) × ((run (stop_all m) es).forks ≡ m.forks)
unfolding stop_all
stop_all-forks m es a = run-Stopped m.forks (stop_all m) es a (refl, refl)
