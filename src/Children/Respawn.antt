-- ===== src/Children/Respawn.antt =====
-- child-process-manager.ts: a child that exits is replaced, also when `stopProject` made it exit.
use mathlib.Core.Path.{subst}
use ai_support_agent_cli.Common.{
  ℕ, suc, ◌<◌, Bool, true, false, Option, none, some, List, [], ◌∷◌, String, ◌≡◌, inl, inr, refl,
  ap, ◌∙◌, if◌then◌else◌, Option-cases, arith, leb, ◌==◌, lookup, remove, lookup-insert_self,
  lookup-remove_self,
}
use ai_support_agent_cli.Children.{
  child_process_max_restarts, Timer, Manager, update, spawn_child, schedule, clear,
  handle_child_exit, resolve, resolved, on_exit, find_timer, on_timer, clear_restart, stop_project,
  send_token_update, exits, fires, stops, updates_token, step, run,
}

-- The event forks no project.

-- What `stopProject` changes before its wait: nothing that an exit reads.
abbrev Same : Manager → Manager → Type 0
Same m m' =
    (m'.processes ≡ m.processes)
    × (m'.objects ≡ m.objects)
    × (m'.stopping ≡ m.stopping)
    × (m'.forks ≡ m.forks)
    × (m'.timers ≡ m.timers)

clear_restart-Same : (o : Option ℕ) (key : String) (m : Manager) → Same m (clear_restart o key m)
clear_restart-Same none key m = (refl, refl, refl, refl, refl)
clear_restart-Same (some number) key m = (refl, refl, refl, refl, refl)

stop_project-Same : (key : String) (m : Manager) → Same m (stop_project key m)
unfolding stop_project
stop_project-Same key m =
    let same = clear_restart-Same (lookup key m.restart_timers) key m in
    elim (Option-cases (lookup key m.processes)) [
      | inl e ↦ rw (stop_project, e) same
      | inr (i, e) ↦ rw (stop_project, e) same
    ]

self_eq : (n : ℕ) → (n == n) ≡ true
self_eq n = ground arith

-- The child of a managed project exits, while it may be started again: a timer is set.
abbrev pub Restartable : String → ℕ → Manager → Type 0
Restartable key i m =
    (lookup key m.processes ≡ some i)
    × (m.stopping ≡ false)
    × ((m.objects i).restart_count < child_process_max_restarts)

if_false : (b : Bool) (x y : Manager) → b ≡ false → (if b then x else y) ≡ y
if_false b x y e = rw e refl

handle_schedules :
    (key : String) (i : ℕ) (m : Manager)
    → Restartable key i m
    → handle_child_exit key m ≡ schedule key i m
unfolding handle_child_exit
handle_schedules key i m (e, s, c) =
    rw (handle_child_exit, e)
      (if_false (leb child_process_max_restarts (m.objects i).restart_count) _ _ (ground arith))

exit_schedules :
    (key : String) (i : ℕ) (m : Manager)
    → Restartable key i m
    → on_exit key i m ≡ resolved i (schedule key i m)
unfolding on_exit
exit_schedules key i m (e, s, c) =
    ap (resolved i)
      (if_false m.stopping m (handle_child_exit key m) s ∙ handle_schedules key i m (e, s, c))

timer_fires :
    (t : Timer) (m : Manager)
    → find_timer t.number m.armed ≡ some t
    → m.stopping ≡ false
    → on_timer t.number m
      ≡ spawn_child t.key (m.objects t.object).token (record m {
        armed = clear t.number m.armed;
        restart_timers = remove t.key m.restart_timers;
      })
unfolding on_timer
timer_fires t m e s = rw (on_timer, e) (if_false m.stopping _ _ s)

spawn_managed :
    (key token : String) (m : Manager)
    → let m' = spawn_child key token m in
      (lookup key m'.processes ≡ some m.forks)
      × (m'.forks ≡ suc m.forks)
      × ((m'.objects m.forks).token ≡ token)
unfolding spawn_child
spawn_managed key token m =
    (lookup-insert_self key m.forks m.processes, refl, rw (self_eq m.forks) refl)

-- The timer that the exit of a child sets.
abbrev timer_of : String → ℕ → Manager → Timer
timer_of key i m = record { number = m.timers; key = key; object = i }

exit_then_timer :
    (key : String) (i : ℕ) (m : Manager)
    → Restartable key i m
    → let m' = on_timer m.timers (on_exit key i m) in
      (lookup key m'.processes ≡ some m.forks)
      × (m'.forks ≡ suc m.forks)
      × ((m'.objects m.forks).token ≡ (m.objects i).token)
exit_then_timer key i m (e, s, c) =
    let exited = resolved i (schedule key i m) in
    let token_kept : (exited.objects i).token ≡ (m.objects i).token = rw (self_eq i) refl in
    let (managed, forked, token) = spawn_managed key (exited.objects i).token (record exited {
      armed = clear m.timers exited.armed;
      restart_timers = remove key exited.restart_timers;
    }) in
    rw
      (
        exit_schedules key i m (e, s, c),
        timer_fires (timer_of key i m) exited (rw (self_eq m.timers) refl) s,
      )
      (managed, forked, token ∙ token_kept)

-- A child that exits of its own accord while it may be started again is replaced, when the timer fires, by
-- a new child of the same project, started with the token that was last sent to the project.
pub restart-token :
    (key token : String) (i : ℕ) (m : Manager)
    → Restartable key i m
    → let m' = run m (updates_token key token ∷ exits key i ∷ fires m.timers ∷ []) in
      (lookup key m'.processes ≡ some m.forks)
      × (m'.forks ≡ suc m.forks)
      × ((m'.objects m.forks).token ≡ token)
unfolding run step
restart-token key token i m (e, s, c) =
    let updated = record m {
      objects =
          update i (record { restart_count = (m.objects i).restart_count; token = token })
            m.objects;
    } in
    let same_count : (updated.objects i).restart_count ≡ (m.objects i).restart_count =
      rw (self_eq i) refl in
    let new_token : (updated.objects i).token ≡ token = rw (self_eq i) refl in
    let (managed, forked, kept) = exit_then_timer key i updated (e, s, omega (arith, same_count)) in
    rw (token_sent key token i m e) (managed, forked, kept ∙ new_token)
  where
    token_sent :
        (key token : String) (i : ℕ) (m : Manager)
        → lookup key m.processes ≡ some i
        → send_token_update key token m ≡ record m {
          objects =
              update i
                (record { restart_count = (m.objects i).restart_count; token = token })
                m.objects;
        }
    token_sent key token i m e = rw (send_token_update, e) refl

stop_waits :
    (key : String) (i : ℕ) (m : Manager)
    → lookup key m.processes ≡ some i
    → (stop_project key m).waiting ≡ (key, i) ∷ m.waiting
unfolding stop_project
stop_waits key i m e = rw (stop_project, e) refl

exit_removes :
    (key : String) (i : ℕ) (m : Manager) (waiting : List (String × ℕ))
    → Restartable key i m
    → m.waiting ≡ (key, i) ∷ waiting
    → lookup key (on_exit key i m).processes ≡ none
exit_removes key i m waiting r w =
    rw (exit_schedules key i m r)
      (rw w (rw (self_eq i) (lookup-remove_self key (resolve i waiting m.processes))))

-- A project that is removed from the configuration comes back: its child exits when `stopProject` asks it
-- to, the handler of the exit takes this for a crash and sets a timer, and the timer forks the project
-- again after its removal.
pub stop_project-respawns :
    (key : String) (i : ℕ) (m : Manager)
    → Restartable key i m
    → let stopped = run m (stops key ∷ exits key i ∷ []) in
      (lookup key stopped.processes ≡ none)
      × (lookup key (step stopped (fires m.timers)).processes ≡ some m.forks)
      × ((step stopped (fires m.timers)).forks ≡ suc m.forks)
unfolding run step
stop_project-respawns key i m (e, s, c) =
    let asked = stop_project key m in
    let (processes, objects, stopping, forks, timers) = stop_project-Same key m in
    let restartable : Restartable key i asked = (rw processes e, stopping ∙ s, rw objects c) in
    let (managed, forked, kept) = exit_then_timer key i asked restartable in
    (
      exit_removes key i asked m.waiting restartable (stop_waits key i m e),
      subst (λ (n : ℕ). lookup key (on_timer n (on_exit key i asked)).processes ≡ some m.forks)
          timers (managed ∙ ap (λ (n : ℕ). some n) forks),
      subst (λ (n : ℕ). (on_timer n (on_exit key i asked)).forks ≡ suc m.forks) timers
          (forked ∙ ap (λ (n : ℕ). suc n) forks),
    )
