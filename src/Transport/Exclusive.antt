-- ===== src/Transport/Exclusive.antt =====
-- agent-transport.ts: the guard on `inFlightCommands` keeps one execution per command.
use ai_support_agent_cli.Common.{
  ℕ, suc, ◌-◌, ◌≤◌, true, false, Option, none, some, List, [], ◌∷◌, String, ◌≡◌, ◌≢◌, inl, inr,
  refl, Option-cases, sym, ◌∙◌, if◌then◌else◌, Bool-cases, arith, lookup, insert, remove, has,
  member, add, erase, member-add, member-erase, lookup-insert, lookup-remove, str_eq, eq_iff,
  is_some, ap,
}
use ai_support_agent_cli.Pending.{failure, Store}
use ai_support_agent_cli.Transport.{
  TransportDeps, Phase, fetching, executing, submitting, reporting, Mark, started, ended, World,
  Event, finish, discard, save_and_send, run, initial,
}
use ai_support_agent_cli.Transport.Moves.{
  Move, stays, drains_now, begins, starts, reports, answers, fails, quits, drops, loses, Waits,
  run-invariant, remember_only,
}

-- The executions of a command that have started and not ended.
unfoldable pub open_runs : String → List Mark → ℕ
open_runs k [] = 0
open_runs k (started id ∷ log) = if str_eq id k then suc (open_runs k log) else open_runs k log
open_runs k (ended id ∷ log) = if str_eq id k then open_runs k log - 1 else open_runs k log

abbrev pub executions : Option Phase → ℕ
executions none = 0
executions (some fetching) = 0
executions (some executing) = 1
executions (some (submitting r p)) = 0
executions (some (reporting r p)) = 0

abbrev pub Tasks : Type 0
Tasks = List (String × Phase)

abbrev InFlight : List String → Tasks → Type 0
InFlight flight tasks = (k : String) → member k flight ≡ has k tasks

abbrev Executing : List Mark → Tasks → Type 0
Executing log tasks = (k : String) → open_runs k log ≡ executions (lookup k tasks)

module _ (id : String) where
  InFlight-add :
      (flight : List String) (tasks : Tasks)
      → InFlight flight tasks
      → InFlight (add id flight) (insert id fetching tasks)
  InFlight-add flight tasks h k =
      rw (member-add id k flight, lookup-insert id k fetching tasks) (ground (arith, h k))

  InFlight-erase :
      (flight : List String) (tasks : Tasks)
      → InFlight flight tasks
      → InFlight (erase id flight) (remove id tasks)
  InFlight-erase flight tasks h k =
      rw (member-erase id k flight, lookup-remove id k tasks) (ground (arith, h k))

  InFlight-insert :
      (phase next : Phase) (flight : List String) (tasks : Tasks)
      → lookup id tasks ≡ some phase
      → InFlight flight tasks
      → InFlight flight (insert id next tasks)
  InFlight-insert phase next flight tasks at h k =
      rw (lookup-insert id k next tasks) (ground (arith, h k, eq_iff id k, at))

  -- The executions of `k` where `id` waits in a phase.
  executions_at :
      (phase : Phase) (tasks : Tasks) (k : String)
      → lookup id tasks ≡ some phase
      → str_eq id k ≡ true
      → executions (lookup k tasks) ≡ executions (some phase)
  executions_at phase tasks k at same = rw (← (eq_iff id k).0 same, at) refl

  Executing-insert :
      (next : Phase) (log log' : List Mark) (tasks : Tasks)
      → ((k : String)
          → open_runs k log' ≡ (if str_eq id k then executions (some next) else open_runs k log))
      → Executing log tasks
      → Executing log' (insert id next tasks)
  Executing-insert next log log' tasks marks h k =
      rw (marks k, lookup-insert id k next tasks)
        (elim (Bool-cases (str_eq id k)) [
          | inl same ↦ rw same refl
          | inr different ↦ rw different (h k)
        ])

  Executing-remove :
      (log log' : List Mark) (tasks : Tasks)
      → ((k : String) → open_runs k log' ≡ (if str_eq id k then 0 else open_runs k log))
      → Executing log tasks
      → Executing log' (remove id tasks)
  Executing-remove log log' tasks marks h k =
      rw (marks k, lookup-remove id k tasks)
        (elim (Bool-cases (str_eq id k)) [
          | inl same ↦ rw same refl
          | inr different ↦ rw different (h k)
        ])

  module _ {phase : Phase} (log : List Mark) (tasks : Tasks) (at : lookup id tasks ≡ some phase)
      (h : Executing log tasks) where
    open_at : (k : String) → str_eq id k ≡ true → open_runs k log ≡ executions (some phase)
    open_at k same = h k ∙ executions_at phase tasks k at same

    marks_start :
        phase ≡ fetching
        → (k : String)
        → open_runs k (started id ∷ log) ≡ (if str_eq id k then 1 else open_runs k log)
    unfolding open_runs
    marks_start e k = elim (Bool-cases (str_eq id k)) [
      | inl same ↦ rw same (rw (open_at k same, e) refl)
      | inr different ↦ rw different refl
    ]

    marks_end :
        phase ≡ executing
        → (k : String) → open_runs k (ended id ∷ log) ≡ (if str_eq id k then 0 else open_runs k log)
    unfolding open_runs
    marks_end e k = elim (Bool-cases (str_eq id k)) [
      | inl same ↦ rw same (rw (open_at k same, e) refl)
      | inr different ↦ rw different refl
    ]

  marks_idle :
      (log : List Mark) (tasks : Tasks)
      → Executing log tasks
      → executions (lookup id tasks) ≡ 0
      → (k : String) → open_runs k log ≡ (if str_eq id k then 0 else open_runs k log)
  marks_idle log tasks h e k = elim (Bool-cases (str_eq id k)) [
    | inl same ↦ rw same (rw (← (eq_iff id k).0 same) (h id ∙ e))
    | inr different ↦ rw different refl
  ]

waits_idle :
    (id : String) (phase : Phase) (tasks : Tasks)
    → lookup id tasks ≡ some phase
    → phase ≢ executing
    → executions (lookup id tasks) ≡ 0
waits_idle id fetching tasks at h = rw at refl
waits_idle id executing tasks at h = absurd (h refl)
waits_idle id (submitting r p) tasks at h = rw at refl
waits_idle id (reporting r p) tasks at h = rw at refl

absent_idle :
    (id : String) (flight : List String) (tasks : Tasks)
    → InFlight flight tasks
    → member id flight ≡ false
    → executions (lookup id tasks) ≡ 0
absent_idle id flight tasks h f = elim (Option-cases (lookup id tasks)) [
  | inl e ↦ rw e refl
  | inr (phase, e) ↦ absurd (clash (sym f ∙ h id ∙ ap is_some e))
]
  where
    clash : false ≡ true → ⊥
    clash h = cc

abbrev pub Exclusive : World → Type 0
Exclusive w = InFlight w.in_flight w.tasks × Executing w.log w.tasks

module _ (deps : TransportDeps) where
  finish-Exclusive :
      (id : String) {phase : Phase} (w : World)
      → Waits id phase w
      → phase ≢ executing
      → Exclusive w
      → Exclusive (finish id w)
  unfolding finish
  finish-Exclusive id {phase} w at k (i, x) = (
    InFlight-erase id w.in_flight w.tasks i,
    Executing-remove id w.log w.log w.tasks
        (marks_idle id w.log w.tasks x (waits_idle id phase w.tasks at k)) x,
  )

  Move-Exclusive : (w w' : World) → Move deps w w' → Exclusive w → Exclusive w'
  unfolding finish discard save_and_send
  Move-Exclusive w _ stays h = h
  Move-Exclusive w _ drains_now h = h
  Move-Exclusive w _ (begins id o f) (i, x) = (
    InFlight-add id w.in_flight w.tasks i,
    Executing-insert id fetching w.log w.log w.tasks
        (marks_idle id w.log w.tasks x (absent_idle id w.in_flight w.tasks i f)) x,
  )
  Move-Exclusive w _ (starts id d at) (i, x) =
      let (assignments, e) = remember_only id d w in
      rw e (
        InFlight-insert id fetching executing w.in_flight w.tasks at i,
        Executing-insert id executing w.log (started id ∷ w.log) w.tasks
            (marks_start id w.log w.tasks at x refl) x,
      )
  Move-Exclusive w _ (reports id disk e at) (i, x) = (
    InFlight-insert id fetching (reporting (failure e.message) _) w.in_flight w.tasks at i,
    Executing-insert id (reporting (failure e.message) _) w.log w.log w.tasks
        (marks_idle id w.log w.tasks x (waits_idle id fetching w.tasks at (λ k. cc))) x,
  )
  Move-Exclusive w _ (answers id disk r at) (i, x) = (
    InFlight-insert id executing (submitting r _) w.in_flight w.tasks at i,
    Executing-insert id (submitting r _) w.log (ended id ∷ w.log) w.tasks
        (marks_end id w.log w.tasks at x refl) x,
  )
  Move-Exclusive w _ (fails id disk e at) (i, x) = (
    InFlight-insert id executing (reporting (failure e.message) _) w.in_flight w.tasks at i,
    Executing-insert id (reporting (failure e.message) _) w.log (ended id ∷ w.log) w.tasks
        (marks_end id w.log w.tasks at x refl) x,
  )
  Move-Exclusive w _ (quits id {phase} at k) h = finish-Exclusive id w at k h
  Move-Exclusive w _ (drops id {phase} at k) h = finish-Exclusive id w at k h
  Move-Exclusive w _ (loses id at) (i, x) = (
    InFlight-erase id w.in_flight w.tasks i,
    Executing-remove id w.log (ended id ∷ w.log) w.tasks (marks_end id w.log w.tasks at x refl) x,
  )

  initial-Exclusive : (store : Store) → Exclusive (initial store)
  unfolding member lookup open_runs
  initial-Exclusive store = (λ k. refl, λ k. refl)

  -- Whatever commands arrive and in whatever order the calls of their runs return, the set of commands in
  -- flight is that of the runs that have not finished, and no command has two executions going on at once:
  -- its starts and ends alternate, and one is open exactly while its run waits for the execution.
  pub run-Exclusive :
      (store : Store) (events : List Event) (k : String)
      → let w = run deps (initial store) events in
        (open_runs k w.log ≤ 1)
        × (open_runs k w.log ≡ executions (lookup k w.tasks))
        × (member k w.in_flight ≡ has k w.tasks)
  run-Exclusive store events k =
      let (i, x) =
        run-invariant deps Exclusive Move-Exclusive (initial store) events
          (initial-Exclusive store) in
      (rw (x k) (at_most_one (lookup k (run deps (initial store) events).tasks)), x k, i k)
    where
      at_most_one : (o : Option Phase) → executions o ≤ 1
      at_most_one none = omega arith
      at_most_one (some fetching) = omega arith
      at_most_one (some executing) = omega arith
      at_most_one (some (submitting r p)) = omega arith
      at_most_one (some (reporting r p)) = omega arith
