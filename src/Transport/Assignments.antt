-- ===== src/Transport/Assignments.antt =====
-- agent-transport.ts and api-client.ts: the generation of an assignment is not kept any longer than the run
-- of its command.
use ai_support_agent_cli.Common.{
  ℕ, false, none, some, List, String, ◌≡◌, inl, inr, refl, ◌∙◌, Bool-cases, Option-cases, lookup,
  insert, remove, is_some, str_eq, lookup-insert, lookup-remove,
}
use ai_support_agent_cli.Pending.{failure}
use ai_support_agent_cli.Transport.{
  TransportDeps, Phase, fetching, executing, submitting, reporting, World, CommandDetail, finish,
  discard, remember, save_and_send,
}
use ai_support_agent_cli.Transport.Moves.{
  Move, stays, drains_now, begins, starts, reports, answers, fails, quits, drops, loses,
  remember_only,
}
use ai_support_agent_cli.Transport.Exclusive.{Tasks}

abbrev Generations : Type 0
Generations = List (String × ℕ)

-- Only a command whose run has not finished has a generation.
abbrev pub Owned : Generations → Tasks → Type 0
Owned generations tasks = (k : String) → lookup k tasks ≡ none → lookup k generations ≡ none

not_none {ℓ} : {A : Type ℓ} {a : A} → some a ≡ none → ⊥
not_none h = cc

module _ (id : String) where
  Owned-insert :
      (phase : Phase) (generations generations' : Generations) (tasks : Tasks)
      → ((k : String) → str_eq id k ≡ false → lookup k generations' ≡ lookup k generations)
      → Owned generations tasks
      → Owned generations' (insert id phase tasks)
  Owned-insert phase generations generations' tasks same_others h k free =
      elim (Bool-cases (str_eq id k)) [
        | inl same ↦ absurd (not_none (rw (lookup-insert id k phase tasks, same) at free))
        | inr different ↦
            same_others k different ∙ h k (rw (lookup-insert id k phase tasks, different) at free)
      ]

  Owned-remove :
      (generations : Generations) (tasks : Tasks)
      → Owned generations tasks
      → Owned (remove id generations) (remove id tasks)
  Owned-remove generations tasks h k free = elim (Bool-cases (str_eq id k)) [
    | inl same ↦ rw (lookup-remove id k generations, same) refl
    | inr different ↦
        rw (lookup-remove id k generations, different)
          (h k (rw (lookup-remove id k tasks, different) at free))
  ]

  remember_elsewhere :
      (d : CommandDetail) (w : World) (k : String)
      → str_eq id k ≡ false
      → lookup k (remember id d w).assignments ≡ lookup k w.assignments
  unfolding remember
  remember_elsewhere d w k different = elim (Bool-cases (is_some d.assigned_instance_id)) [
    | inl e ↦ elim (Option-cases d.assignment_generation) [
      | inl g ↦ rw (remember, e, g) refl
      | inr (n, g) ↦ rw (remember, e, g) (rw (lookup-insert id k n w.assignments, different) refl)
    ]
    | inr e ↦ rw (remember, e) refl
  ]

  remember_tasks : (d : CommandDetail) (w : World) → (remember id d w).tasks ≡ w.tasks
  remember_tasks d w = let (assignments, e) = remember_only id d w in rw e refl

module _ (deps : TransportDeps) where
  pub Move-Owned :
      (w w' : World) → Move deps w w' → Owned w.assignments w.tasks → Owned w'.assignments w'.tasks
  unfolding finish discard save_and_send
  Move-Owned w _ stays h = h
  Move-Owned w _ drains_now h = h
  Move-Owned w _ (begins id o f) h =
      Owned-insert id fetching w.assignments w.assignments w.tasks (λ k d. refl) h
  Move-Owned w _ (starts id d at) h = rw (remember_tasks id d w) (
      Owned-insert id executing w.assignments (remember id d w).assignments w.tasks
        (remember_elsewhere id d w) h)
  Move-Owned w _ (reports id disk e at) h =
      Owned-insert id (reporting (failure e.message) _) w.assignments w.assignments w.tasks
        (λ k d. refl) h
  Move-Owned w _ (answers id disk r at) h =
      Owned-insert id (submitting r _) w.assignments w.assignments w.tasks (λ k d. refl) h
  Move-Owned w _ (fails id disk e at) h =
      Owned-insert id (reporting (failure e.message) _) w.assignments w.assignments w.tasks
        (λ k d. refl) h
  Move-Owned w _ (quits id at k) h = Owned-remove id w.assignments w.tasks h
  Move-Owned w _ (drops id at k) h = Owned-remove id w.assignments w.tasks h
  Move-Owned w _ (loses id at) h = Owned-remove id w.assignments w.tasks h
