-- ===== src/Transport/Durable.antt =====
-- agent-transport.ts and pending-result-store.ts: while a result is being submitted that the disk took, its
-- file holds it.
use ai_support_agent_cli.Common.{
  Bool, true, false, Option, none, some, List, String, ◌≡◌, inl, inr, refl, sym, ◌∙◌, if◌then◌else◌,
  Bool-cases, lookup, insert, str_eq, lookup-insert, lookup-remove,
}
use ai_support_agent_cli.Pending.{
  CommandResult, failure, Store, Content, saved, corrupted, unreadable, PendingResult,
}
use ai_support_agent_cli.Pending.Laws.{
  WellFormed, save_pending_result-WellFormed, remove_pending_result-WellFormed,
  lookup-save_pending_result, save_pending_result-written, lookup-remove_pending_result,
}
use ai_support_agent_cli.Transport.{
  TransportDeps, Phase, fetching, executing, submitting, reporting, World, Event, finish, discard,
  save_and_send, run, initial, Disk, pending_of,
}
use ai_support_agent_cli.Transport.Moves.{
  Move, stays, drains_now, begins, starts, reports, answers, fails, quits, drops, loses,
  run-invariant, remember_only, after_end,
}

-- The result that is being submitted and is on disk as well.
abbrev pub persisted : Option Phase → Option CommandResult
persisted none = none
persisted (some fetching) = none
persisted (some executing) = none
persisted (some (submitting r kept)) = if kept then some r else none
persisted (some (reporting r kept)) = if kept then some r else none

-- The result in a file.
abbrev pub result_in : Option Content → Option CommandResult
result_in none = none
result_in (some corrupted) = none
result_in (some unreadable) = none
result_in (some (saved p)) = some p.result

abbrev pub Durable : World → Type 0
Durable w =
    (k : String) (r : CommandResult)
    → persisted (lookup k w.tasks) ≡ some r
    → result_in (lookup k w.store) ≡ some r

not_some {ℓ} : {A : Type ℓ} {a : A} → none ≡ some a → ⊥
not_some h = cc

module _ (deps : TransportDeps) where
  Durable-enter :
      (id : String) (phase : Phase) (w : World)
      → persisted (some phase) ≡ none
      → Durable w
      → (k : String) (r : CommandResult) → persisted (lookup k (insert id phase w.tasks)) ≡ some r
      → result_in (lookup k w.store) ≡ some r
  Durable-enter id phase w nothing h k r e = elim (Bool-cases (str_eq id k)) [
    | inl same ↦
        absurd (not_some (sym nothing ∙ (rw (lookup-insert id k phase w.tasks, same) at e)))
    | inr different ↦ h k r (rw (lookup-insert id k phase w.tasks, different) at e)
  ]

  stored_result :
      (id k : String) (result r : CommandResult) (p : PendingResult) (task : Option Phase)
      (file : Option Content) (phase : Bool → Phase) (writable : Bool)
      → p.result ≡ result
      → persisted (some (phase writable)) ≡ (if writable then some result else none)
      → (persisted task ≡ some r → result_in file ≡ some r)
      → persisted (if str_eq id k then some (phase writable) else task) ≡ some r
      → result_in (if writable then (if str_eq id k then some (saved p) else file) else file)
        ≡ some r
  stored_result id k result r p task file phase true same_result shape before e =
      elim (Bool-cases (str_eq id k)) [
        | inl same ↦ rw same (rw same_result (sym shape ∙ (rw same at e)))
        | inr different ↦ rw different (before (rw different at e))
      ]
  stored_result id k result r p task file phase false same_result shape before e =
      elim (Bool-cases (str_eq id k)) [
        | inl same ↦ absurd (not_some (sym shape ∙ (rw same at e)))
        | inr different ↦ before (rw different at e)
      ]

  Durable-send :
      (disk : Disk) (id : String) (result : CommandResult) (phase : Bool → Phase) (w : World)
      → ((kept : Bool) → persisted (some (phase kept)) ≡ (if kept then some result else none))
      → Durable w
      → Durable (save_and_send deps disk id result phase w)
  unfolding save_and_send
  Durable-send disk id result phase w shape h k r e =
      let p = pending_of deps w disk id result in
      let e' : persisted (lookup k (insert id (phase disk.writable) w.tasks)) ≡ some r =
        rw (save_pending_result-written disk.writable p w.store) at e in
      rw (lookup-save_pending_result disk.writable p k w.store) (
        stored_result id k result r p (lookup k w.tasks) (lookup k w.store) phase disk.writable refl
          (shape disk.writable) (h k r)
          (rw (lookup-insert id k (phase disk.writable) w.tasks) at e'))

  Durable-finish : (id : String) (w : World) → Durable w → Durable (finish id w)
  unfolding finish
  Durable-finish id w h k r e = elim (Bool-cases (str_eq id k)) [
    | inl same ↦ absurd (not_some (rw (lookup-remove id k w.tasks, same) at e))
    | inr different ↦ h k r (rw (lookup-remove id k w.tasks, different) at e)
  ]

  Durable-drop : (id : String) (w : World) → Durable w → Durable (finish id (discard id w))
  unfolding finish discard
  Durable-drop id w h k r e = elim (Bool-cases (str_eq id k)) [
    | inl same ↦ absurd (not_some (rw (lookup-remove id k w.tasks, same) at e))
    | inr different ↦
        rw (lookup-remove_pending_result id k w.store, different)
          (h k r (rw (lookup-remove id k w.tasks, different) at e))
  ]

  pub Move-Durable : (w w' : World) → Move deps w w' → Durable w → Durable w'
  Move-Durable w _ stays h = h
  Move-Durable w _ drains_now h = h
  Move-Durable w _ (begins id o f) h = Durable-enter id fetching w refl h
  Move-Durable w _ (starts id d at) h =
      let (assignments, e) = remember_only id d w in rw e (Durable-enter id executing w refl h)
  Move-Durable w _ (reports id disk e at) h =
      Durable-send disk id (failure e.message) (reporting (failure e.message)) w (λ kept. refl) h
  Move-Durable w _ (answers id disk r at) h =
      Durable-send disk id r (submitting r) (after_end id w) (λ kept. refl) h
  Move-Durable w _ (fails id disk e at) h =
      Durable-send disk id (failure e.message) (reporting (failure e.message)) (after_end id w)
        (λ kept. refl) h
  Move-Durable w _ (quits id at k) h = Durable-finish id w h
  Move-Durable w _ (drops id at k) h = Durable-drop id w h
  Move-Durable w _ (loses id at) h = Durable-drop id (after_end id w) h

  Move-WellFormed : (w w' : World) → Move deps w w' → WellFormed w.store → WellFormed w'.store
  unfolding finish discard save_and_send
  Move-WellFormed w _ stays h = h
  Move-WellFormed w _ drains_now h = h
  Move-WellFormed w _ (begins id o f) h = h
  Move-WellFormed w _ (starts id d at) h = let (assignments, e) = remember_only id d w in rw e h
  Move-WellFormed w _ (reports id disk e at) h =
      save_pending_result-WellFormed disk.writable (pending_of deps w disk id (failure e.message))
        w.store h
  Move-WellFormed w _ (answers id disk r at) h =
      save_pending_result-WellFormed disk.writable (pending_of deps (after_end id w) disk id r)
        w.store h
  Move-WellFormed w _ (fails id disk e at) h =
      save_pending_result-WellFormed disk.writable
        (pending_of deps (after_end id w) disk id (failure e.message)) w.store h
  Move-WellFormed w _ (quits id at k) h = h
  Move-WellFormed w _ (drops id at k) h = remove_pending_result-WellFormed id w.store h
  Move-WellFormed w _ (loses id at) h = remove_pending_result-WellFormed id w.store h

  -- The folder of pending results stays as the resending loop needs it: each file is named by the command
  -- of its result, and no name stands twice.
  pub run-WellFormed :
      (store : Store) (events : List Event)
      → WellFormed store
      → WellFormed (run deps (initial store) events).store
  run-WellFormed store events h =
      run-invariant deps (λ w. WellFormed w.store) Move-WellFormed (initial store) events h

  pub initial-Durable : (store : Store) → Durable (initial store)
  unfolding lookup
  initial-Durable store k r e = absurd (not_some e)
