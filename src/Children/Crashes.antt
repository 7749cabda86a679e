-- ===== src/Children/Crashes.antt =====
-- child-process-manager.ts: a child that exits again and again without a message `started` in between.
use ai_support_agent_cli.Common.{
  ℕ, zero, suc, ◌+◌, ◌-◌, ◌≤◌, ◌<◌, min, String, ◌≡◌, refl, ap, ◌∙◌, inl, inr, Bool, true, false,
  Option, none, some, [], ◌∷◌, arith, leb, ◌==◌, if◌then◌else◌, Bool-cases, lookup, remove,
  lookup-insert_self, lookup-remove_self,
}
use ai_support_agent_cli.Children.{
  child_process_max_restarts, Managed, Timer, Manager, update, count_of, spawn_child, clear,
  schedule, handle_child_exit, resolve, resolved, on_exit, find_timer, fire, on_timer, exits, fires,
  step, run,
}

-- The exit of the child that the project has now, and the timer that this exit sets.
abbrev crash_of : Option ℕ → String → Manager → Manager
crash_of none key m = m
crash_of (some i) key m = run m (exits key i ∷ fires m.timers ∷ [])

-- So many crashes in a row.
unfoldable pub crashes : ℕ → String → Manager → Manager
unfolding run
crashes zero key m = m
crashes (suc n) key m = crashes n key (crash_of (lookup key m.processes) key m)

-- The project has a child that has been restarted so often, and nothing else goes on.
pub record Runs (key : String) (count : ℕ) (m : Manager) : Type 0 where
  pub child : ℕ
  pub found : lookup key m.processes ≡ some child
  pub counted : (m.objects child).restart_count ≡ count
  pub no_timer : m.armed ≡ []
  pub no_wait : m.waiting ≡ []
  pub goes : m.stopping ≡ false

number_same : (n : ℕ) → (n == n) ≡ true
number_same n = ground arith

update-at :
    (i : ℕ) (managed : Managed) (objects : ℕ → Managed) → update i managed objects i ≡ managed
update-at i managed objects = rw (number_same i) refl

chosen_true : {A : Type 0} (b : Bool) (x y : A) → b ≡ true → (if b then x else y) ≡ x
chosen_true b x y e = rw e refl

chosen_false : {A : Type 0} (b : Bool) (x y : A) → b ≡ false → (if b then x else y) ≡ y
chosen_false b x y e = rw e refl

at_child :
    (o : Option ℕ) (m x : Manager) (f : ℕ → Manager) (i : ℕ)
    → o ≡ some i
    → elim o [ none ↦ x | some j ↦ f j ] ≡ f i
at_child o m x f i e = rw e refl

-- The exit of the child of a project that runs, with restarts left.
exit-schedules :
    (key : String) (count : ℕ) (m : Manager) (r : Runs key count m)
    → leb child_process_max_restarts count ≡ false
    → on_exit key r.child m ≡ resolved r.child (schedule key r.child m)
unfolding on_exit handle_child_exit
exit-schedules key count m r room = ap (resolved r.child) (
    chosen_false m.stopping m (handle_child_exit key m) r.goes
    ∙ at_child (lookup key m.processes) m m _ r.child r.found
    ∙ chosen_false (leb child_process_max_restarts (m.objects r.child).restart_count) _ _
        (rw r.counted room))

exit-gives_up :
    (key : String) (count : ℕ) (m : Manager) (r : Runs key count m)
    → leb child_process_max_restarts count ≡ true
    → on_exit key r.child m ≡ resolved r.child (record m { processes = remove key m.processes })
unfolding on_exit handle_child_exit
exit-gives_up key count m r full = ap (resolved r.child) (
    chosen_false m.stopping m (handle_child_exit key m) r.goes
    ∙ at_child (lookup key m.processes) m m _ r.child r.found
    ∙ chosen_true (leb child_process_max_restarts (m.objects r.child).restart_count) _ _
        (rw r.counted full))

-- The timer that the exit has set.
abbrev timer_of : String → ℕ → Manager → Timer
timer_of key i m = record { number = m.timers; key = key; object = i }

abbrev after_timer : String → ℕ → Manager → Manager
after_timer key i m =
    let s = resolved i (schedule key i m) in
    record s { armed = clear m.timers s.armed; restart_timers = remove key s.restart_timers }

timer-spawns :
    (key : String) (i : ℕ) (m : Manager)
    → m.stopping ≡ false
    → on_timer m.timers (resolved i (schedule key i m))
      ≡ spawn_child key
          ((update i
              (record {
                restart_count = suc (m.objects i).restart_count;
                token = (m.objects i).token;
              })
              m.objects)
            i).token
          (after_timer key i m)
unfolding on_timer spawn_child
timer-spawns key i m goes =
    fired (find_timer m.timers (resolved i (schedule key i m)).armed) (timer_of key i m)
      (rw (number_same m.timers) refl)
    ∙ chosen_false m.stopping _ _ goes
  where
    fired :
        (o : Option Timer) (t : Timer)
        → o ≡ some t
        → elim o [
          | none ↦ resolved i (schedule key i m)
          | some u ↦ fire u (resolved i (schedule key i m))
        ]
          ≡ fire t (resolved i (schedule key i m))
    fired o t e = rw e refl

-- The manager after a crash and its restart.
abbrev restarted : String → ℕ → Manager → Manager
unfolding spawn_child
restarted key i m =
    spawn_child key
      ((update i
        (record { restart_count = suc (m.objects i).restart_count; token = (m.objects i).token })
        m.objects i).token)
      (after_timer key i m)

restarted-Runs :
    (key : String) (count : ℕ) (m : Manager) (r : Runs key count m)
    → Runs key (suc count) (restarted key r.child m)
unfolding spawn_child
restarted-Runs key count m r = record {
  child = m.forks;
  found = lookup-insert_self key m.forks (resolve r.child m.waiting m.processes);
  counted =
      ap (λ (x : Managed). x.restart_count)
        (update-at m.forks _ (after_timer key r.child m).objects)
      ∙ ap (count_of (resolved r.child (schedule key r.child m)).objects) now_found
      ∙ ap (λ (x : Managed). x.restart_count) (update-at r.child _ m.objects)
      ∙ ap suc r.counted;
  no_timer = rw (number_same m.timers, r.no_timer) refl;
  no_wait = rw r.no_wait refl;
  goes = r.goes;
}
  where
    now_found : lookup key (resolve r.child m.waiting m.processes) ≡ some r.child
    now_found = rw r.no_wait r.found

crash-restarts :
    (key : String) (count : ℕ) (m : Manager) (r : Runs key count m)
    → leb child_process_max_restarts count ≡ false
    → crash_of (some r.child) key m ≡ restarted key r.child m
unfolding run step spawn_child
crash-restarts key count m r room =
    ap (on_timer m.timers) (exit-schedules key count m r room) ∙ timer-spawns key r.child m r.goes

crash-gives_up :
    (key : String) (count : ℕ) (m : Manager) (r : Runs key count m)
    → leb child_process_max_restarts count ≡ true
    → crash_of (some r.child) key m
      ≡ resolved r.child (record m { processes = remove key m.processes })
unfolding run step on_timer
crash-gives_up key count m r full =
    ap (on_timer m.timers) (exit-gives_up key count m r full)
    ∙ quiet (find_timer m.timers m.armed) (rw r.no_timer refl)
  where
    quiet :
        (o : Option Timer)
        → o ≡ none
        → elim o [
          | none ↦ resolved r.child (record m { processes = remove key m.processes })
          | some u ↦ fire u (resolved r.child (record m { processes = remove key m.processes }))
        ]
          ≡ resolved r.child (record m { processes = remove key m.processes })
    quiet o e = rw e refl

gone-stays :
    (n : ℕ) (key : String) (m : Manager) → lookup key m.processes ≡ none → crashes n key m ≡ m
unfolding crashes
gone-stays zero key m e = refl
gone-stays (suc n) key m e = ap (λ o. crashes n key (crash_of o key m)) e ∙ gone-stays n key m e

none_less : (a b : ℕ) → ¬ (a - b < zero)
none_less a b = omega arith

-- Say that the child of a project has been restarted `count` times, at most as often as the limit, while
-- nothing stops and no timer is set, and that it exits again and again, each time followed by the timer
-- that the exit sets. The project is started again after each exit until the limit is reached, however many
-- exits follow; after one exit more it is no longer managed.
pub crashes-stop :
    (n : ℕ) (key : String) (count : ℕ) (m : Manager)
    → Runs key count m
    → count ≤ child_process_max_restarts
    → ((crashes n key m).forks ≡ m.forks + min n (child_process_max_restarts - count))
      × (child_process_max_restarts - count < n → lookup key (crashes n key m).processes ≡ none)
unfolding crashes spawn_child
crashes-stop zero key count m r le =
    (ground arith, λ more. absurd (none_less child_process_max_restarts count more))
crashes-stop (suc n) key count m r le = elim (Bool-cases (leb child_process_max_restarts count)) [
  | inl full ↦
      let gone = resolved r.child (record m { processes = remove key m.processes }) in
      let nothing : lookup key gone.processes ≡ none =
        rw r.no_wait (lookup-remove_self key m.processes) in
      let last : crashes (suc n) key m ≡ gone =
        ap (λ o. crashes n key (crash_of o key m)) r.found
        ∙ ap (crashes n key) (crash-gives_up key count m r full)
        ∙ gone-stays n key gone nothing in
      (rw last (ground arith), λ more. rw last nothing)
  | inr room ↦
      let fits : count < child_process_max_restarts = ground arith in
      let next = restarted key r.child m in
      let first : crashes (suc n) key m ≡ crashes n key next =
        ap (λ o. crashes n key (crash_of o key m)) r.found
        ∙ ap (crashes n key) (crash-restarts key count m r room) in
      let rest = crashes-stop n key (suc count) next (restarted-Runs key count m r) (omega arith) in
      (rw (first, rest.0) (ground arith), λ more. rw first (rest.1 (omega arith)))
]
