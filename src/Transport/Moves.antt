-- ===== src/Transport/Moves.antt =====
-- agent-transport.ts, `processCommand`: the step relation of the runs, and that every event is a step of
-- it.
use ai_support_agent_cli.Common.{
  ◌++◌, ℕ, is_some, Bool, true, false, Option, none, some, List, [], ◌∷◌, String, ◌≡◌, ◌≢◌, inl,
  inr, refl, if◌then◌else◌, Bool-cases, Option-cases, lookup, insert, member, add,
}
use ai_support_agent_cli.Pending.{CommandResult, failure}
use ai_support_agent_cli.Transport.{
  CommandError, is_command_claimed_by_another_replica, TransportDeps, Phase, fetching, executing,
  submitting, reporting, started, ended, World, CommandDetail, Answer, gives, throws, Disk, Event,
  arrives, fetched, executed, submitted, drains, enter, begin_command, finish, discard, remember,
  save_and_send, on_error, on_fetched, on_executed, on_submitted, resume_fetched, resume_executed,
  resume_submitted, step, run,
}

abbrev pub after_end : String → World → World
after_end id w = record w { log = ended id ∷ w.log }

-- The command waits, in this phase.
abbrev pub Waits : String → Phase → World → Type 0
Waits id phase w = lookup id w.tasks ≡ some phase

module _ (deps : TransportDeps) where
  -- `quits` and `drops` end the run of a command, `drops` with its file removed.
  pub data Move : World → World → Type 0 where
    stays : {w : World} → Move w w
    drains_now : {w : World} → Move w (record w { draining = true })
    begins :
        {w : World} (id : String)
        → w.draining ≡ false
        → member id w.in_flight ≡ false
        → Move w (record w { in_flight = add id w.in_flight; tasks = insert id fetching w.tasks })
    starts :
        {w : World} (id : String) (d : CommandDetail)
        → Waits id fetching w
        → Move w (record (enter id executing (remember id d w)) { log = started id ∷ w.log })
    reports :
        {w : World} (id : String) (disk : Disk) (e : CommandError)
        → Waits id fetching w
        → Move w (save_and_send deps disk id (failure e.message) (reporting (failure e.message)) w)
    answers :
        {w : World} (id : String) (disk : Disk) (result : CommandResult)
        → Waits id executing w
        → Move w (save_and_send deps disk id result (submitting result) (after_end id w))
    fails :
        {w : World} (id : String) (disk : Disk) (e : CommandError)
        → Waits id executing w
        → Move w (
            save_and_send deps disk id
              (failure e.message)
              (reporting (failure e.message))
              (after_end id w))
    quits :
        {w : World} (id : String) {phase : Phase}
        → Waits id phase w
        → phase ≢ executing
        → Move w (finish id w)
    drops :
        {w : World} (id : String) {phase : Phase}
        → Waits id phase w
        → phase ≢ executing
        → Move w (finish id (discard id w))
    loses :
        {w : World} (id : String)
        → Waits id executing w
        → Move w (finish id (discard id (after_end id w)))

  choose :
      {w x y : World} (b : Bool)
      → (b ≡ true → Move w x)
      → (b ≡ false → Move w y)
      → Move w (if b then x else y)
  choose true f g = f refl
  choose false f g = g refl

  begin_command-Move : (id : String) (w : World) → Move w (begin_command id w)
  unfolding begin_command
  begin_command-Move id w =
      choose w.draining (λ e. stays)
        (λ open_now. choose (member id w.in_flight) (λ e. stays) (λ free. begins id open_now free))

  on_fetched-Move :
      (disk : Disk) (id : String) (answer : Answer CommandDetail) (w : World)
      → Waits id fetching w
      → Move w (on_fetched deps disk id answer w)
  unfolding on_fetched on_error
  on_fetched-Move disk id (gives d) w h = starts id d h
  on_fetched-Move disk id (throws e) w h =
      let claimed = is_command_claimed_by_another_replica e.kind in
      choose claimed (λ c. quits id h (λ k. cc))
        (λ c. choose claimed (λ c. drops id h (λ k. cc)) (λ c. reports id disk e h))

  on_executed-Move :
      (disk : Disk) (id : String) (answer : Answer CommandResult) (w : World)
      → Waits id executing w
      → Move w (on_executed deps disk id answer w)
  unfolding on_executed on_error
  on_executed-Move disk id (gives result) w h = answers id disk result h
  on_executed-Move disk id (throws e) w h =
      choose (is_command_claimed_by_another_replica e.kind) (λ c. loses id h)
        (λ c. fails id disk e h)

  on_submitted-Move :
      (id : String) (answer : Option CommandError) {phase : Phase} (w : World)
      → Waits id phase w
      → phase ≢ executing
      → Move w (on_submitted id answer w)
  unfolding on_submitted
  on_submitted-Move id none w h k = drops id h k
  on_submitted-Move id (some e) w h k =
      choose (is_command_claimed_by_another_replica e.kind) (λ c. drops id h k) (λ c. quits id h k)

  module _ (w : World) (id : String) where
    resume_fetched-Move :
        (disk : Disk) (answer : Answer CommandDetail) (o : Option Phase)
        → lookup id w.tasks ≡ o
        → Move w (resume_fetched deps disk id answer w o)
    resume_fetched-Move disk answer (some fetching) h = on_fetched-Move disk id answer w h
    resume_fetched-Move disk answer none h = stays
    resume_fetched-Move disk answer (some executing) h = stays
    resume_fetched-Move disk answer (some (submitting r p)) h = stays
    resume_fetched-Move disk answer (some (reporting r p)) h = stays

    resume_executed-Move :
        (disk : Disk) (answer : Answer CommandResult) (o : Option Phase)
        → lookup id w.tasks ≡ o
        → Move w (resume_executed deps disk id answer w o)
    resume_executed-Move disk answer (some executing) h = on_executed-Move disk id answer w h
    resume_executed-Move disk answer none h = stays
    resume_executed-Move disk answer (some fetching) h = stays
    resume_executed-Move disk answer (some (submitting r p)) h = stays
    resume_executed-Move disk answer (some (reporting r p)) h = stays

    resume_submitted-Move :
        (answer : Option CommandError) (o : Option Phase)
        → lookup id w.tasks ≡ o
        → Move w (resume_submitted id answer w o)
    resume_submitted-Move answer (some (submitting r p)) h =
        on_submitted-Move id answer w h (λ k. cc)
    resume_submitted-Move answer (some (reporting r p)) h =
        on_submitted-Move id answer w h (λ k. cc)
    resume_submitted-Move answer none h = stays
    resume_submitted-Move answer (some fetching) h = stays
    resume_submitted-Move answer (some executing) h = stays

  pub step-Move : (w : World) (e : Event) → Move w (step deps w e)
  unfolding step
  step-Move w (arrives id) = begin_command-Move id w
  step-Move w (fetched id answer disk) =
      resume_fetched-Move w id disk answer (lookup id w.tasks) refl
  step-Move w (executed id answer disk) =
      resume_executed-Move w id disk answer (lookup id w.tasks) refl
  step-Move w (submitted id answer) = resume_submitted-Move w id answer (lookup id w.tasks) refl
  step-Move w drains = drains_now

  -- What every step keeps holds after every run.
  pub run-invariant {ℓ} :
      (I : World → Type ℓ)
      → ((w w' : World) → Move w w' → I w → I w')
      → (w : World) (events : List Event) → I w
      → I (run deps w events)
  unfolding run
  run-invariant I kept w [] h = h
  run-invariant I kept w (e ∷ es) h =
      run-invariant I kept (step deps w e) es (kept w (step deps w e) (step-Move w e) h)

  pub run-append :
      (w : World) (es fs : List Event) → run deps w (es ++ fs) ≡ run deps (run deps w es) fs
  unfolding run
  run-append w [] fs = refl
  run-append w (e ∷ es) fs = run-append (step deps w e) es fs

-- Remembering an assignment changes nothing else.
pub remember_only :
    (id : String) (d : CommandDetail) (w : World)
    → (assignments : List (String × ℕ)) × (remember id d w ≡ record w { assignments = assignments })
unfolding remember
remember_only id d w = elim (Bool-cases (is_some d.assigned_instance_id)) [
  | inl e ↦ elim (Option-cases d.assignment_generation) [
    | inl g ↦ (w.assignments, rw (remember, e, g) refl)
    | inr (n, g) ↦ (insert id n w.assignments, rw (remember, e, g) refl)
  ]
  | inr e ↦ (w.assignments, rw (remember, e) refl)
]
