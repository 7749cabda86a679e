-- ===== src/Transport/Keeping.antt =====
-- agent-transport.ts and pending-result-store.ts: what becomes of the file of a result that is being submitted.
use ai_support_agent_cli.Common.{
  true, false, Option, none, some, List, String, ◌≡◌, inl, inr, refl, ◌∙◌, if◌then◌else◌,
  Bool-cases, lookup, eq_refl, ap, All, ◌≢◌, lookup-remove_self,
}
use ai_support_agent_cli.Pending.{CommandResult, Store}
use ai_support_agent_cli.Pending.Laws.{lookup-remove_pending_result}
use ai_support_agent_cli.Transport.{
  CommandError, TransportDeps, submitting, World, Event, arrives, submitted, finish, discard, run,
  initial, on_submitted, step, is_command_claimed_by_another_replica,
}
use ai_support_agent_cli.Transport.Moves.{Waits, run-invariant}
use ai_support_agent_cli.Transport.Durable.{Durable, result_in, Move-Durable, initial-Durable}
use ai_support_agent_cli.Transport.Apart.{run-Same}

module _ (deps : TransportDeps) where
  submitted_finishes :
      (w : World) (id : String) (r : CommandResult) (answer : Option CommandError)
      → Waits id (submitting r true) w
      → step deps w (submitted id answer) ≡ on_submitted id answer w
  unfolding step
  submitted_finishes w id r answer at = rw (step, at) refl

  dropped_file : (id : String) (w : World) → lookup id (finish id (discard id w)).store ≡ none
  unfolding finish discard
  dropped_file id w = rw (lookup-remove_pending_result id id w.store, eq_refl id) refl

  kept_file : (id : String) (w : World) → (finish id w).store ≡ w.store
  unfolding finish
  kept_file id w = refl

  accepted_drops : (id : String) (w : World) → lookup id (on_submitted id none w).store ≡ none
  unfolding on_submitted
  accepted_drops id w = dropped_file id w

  claimed_drops :
      (id : String) (w : World) (e : CommandError)
      → is_command_claimed_by_another_replica e.kind ≡ true
      → lookup id (on_submitted id (some e) w).store ≡ none
  unfolding on_submitted
  claimed_drops id w e c = rw c (dropped_file id w)

  other_keeps :
      (id : String) (w : World) (e : CommandError)
      → is_command_claimed_by_another_replica e.kind ≡ false
      → (on_submitted id (some e) w).store ≡ w.store
  unfolding on_submitted
  other_keeps id w e c = rw c (kept_file id w)

  ended_task : (id : String) (w : World) → lookup id (finish id w).tasks ≡ none
  unfolding finish
  ended_task id w = lookup-remove_self id w.tasks

  other_ends :
      (id : String) (w : World) (e : CommandError)
      → is_command_claimed_by_another_replica e.kind ≡ false
      → lookup id (on_submitted id (some e) w).tasks ≡ none
  unfolding on_submitted
  other_ends id w e c = rw c (ended_task id w)

  -- While the result of a command is being submitted and the disk has taken it, its file holds exactly that
  -- result. The submission removes the file when the server accepts the result or answers that another
  -- replica has the command. After any other error the file still holds the result, and it does so
  -- whatever the runs of commands do later, until the same command arrives again. What else works on the
  -- folder, the loop that sends the kept results again, is not among these events.
  pub submitted-keeps_result :
      (store : Store) (events later : List Event) (id : String) (r : CommandResult)
      → Waits id (submitting r true) (run deps (initial store) events)
      → All (λ event. event ≢ arrives id) later
      → let w = run deps (initial store) events in
        (result_in (lookup id w.store) ≡ some r)
        × (lookup id (step deps w (submitted id none)).store ≡ none)
        × ((e : CommandError)
            → if is_command_claimed_by_another_replica e.kind
              then lookup id (step deps w (submitted id (some e))).store ≡ none
              else result_in
                  (lookup id (run deps (step deps w (submitted id (some e))) later).store)
                ≡ some r)
  submitted-keeps_result store events later id r at new =
      let w = run deps (initial store) events in
      let held =
        run-invariant deps Durable (Move-Durable deps) (initial store) events
          (initial-Durable deps store) id r (rw at refl) in
      (
        held,
        rw (submitted_finishes w id r none at) (accepted_drops id w),
        λ e.
            rw (submitted_finishes w id r (some e) at)
              (elim (Bool-cases (is_command_claimed_by_another_replica e.kind)) [
                | inl c ↦ rw c (claimed_drops id w e c)
                | inr c ↦ rw c (
                    ap result_in (
                      run-Same deps id (on_submitted id (some e) w) later (other_ends id w e c) new
                      ∙ ap (lookup id) (other_keeps id w e c))
                    ∙ held)
              ]),
      )
