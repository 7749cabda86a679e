-- ===== src/Transport/Finishing.antt =====
-- agent-transport.ts: the run of a command ends with the last of the answers it waits for.
use ai_support_agent_cli.Common.{
  ◌++◌, ℕ, ◌≤◌, Bool, true, false, Option, none, some, List, [], ◌∷◌, String, ◌≡◌, refl, ◌∙◌, ap,
  if◌then◌else◌, arith, lookup, member, is_some, lookup-remove_self, lookup-insert_self,
}
use ai_support_agent_cli.Pending.{CommandResult, failure, Store}
use ai_support_agent_cli.Transport.{
  CommandError, TransportDeps, Phase, fetching, executing, submitting, reporting, ended, World,
  CommandDetail, Event, fetched, executed, submitted, finish, discard, remember, save_and_send, run,
  initial, Answer, gives, throws, Disk, on_fetched, on_executed, on_submitted, on_error, step,
  resume_fetched, resume_executed, resume_submitted, is_command_claimed_by_another_replica,
}
use ai_support_agent_cli.Transport.Moves.{run-invariant, run-append}
use ai_support_agent_cli.Transport.Exclusive.{run-Exclusive}
use ai_support_agent_cli.Transport.Assignments.{Owned, Move-Owned}

-- How many waits the run of a command has before it.
abbrev waits_left : Option Phase → ℕ
waits_left none = 0
waits_left (some fetching) = 3
waits_left (some executing) = 2
waits_left (some (submitting r p)) = 1
waits_left (some (reporting r p)) = 1

abbrev left_of : String → World → ℕ
left_of id w = waits_left (lookup id w.tasks)

module _ (deps : TransportDeps) (id : String) where
  left_finish : (w : World) → left_of id (finish id w) ≡ 0
  unfolding finish
  left_finish w = rw (lookup-remove_self id w.tasks) refl

  left_send :
      (disk : Disk) (r : CommandResult) (phase : Bool → Phase) (w : World)
      → ((p : Bool) → waits_left (some (phase p)) ≡ 1)
      → left_of id (save_and_send deps disk id r phase w) ≤ 1
  unfolding save_and_send
  left_send disk r phase w h = rw (lookup-insert_self id (phase _) w.tasks) (omega (arith, h _))

  choose_le :
      (x y : World) (n : ℕ) (b : Bool)
      → left_of id x ≤ n
      → left_of id y ≤ n
      → left_of id (if b then x else y) ≤ n
  choose_le x y n true h k = h
  choose_le x y n false h k = k

  left_finish_le : (n : ℕ) (w : World) → left_of id (finish id w) ≤ n
  left_finish_le n w = rw (left_finish w) (omega arith)

  left_error :
      (disk : Disk) (e : CommandError) (w : World) → left_of id (on_error deps disk id e w) ≤ 1
  unfolding on_error
  left_error disk e w =
      choose_le _ _ 1 (is_command_claimed_by_another_replica e.kind)
        (left_finish_le 1 (discard id w))
        (left_send disk (failure e.message) (reporting (failure e.message)) w (λ p. refl))

  left_fetched :
      (disk : Disk) (answer : Answer CommandDetail) (w : World)
      → left_of id (on_fetched deps disk id answer w) ≤ 2
  unfolding on_fetched
  left_fetched disk (gives d) w =
      rw (lookup-insert_self id executing (remember id d w).tasks) (omega arith)
  left_fetched disk (throws e) w =
      choose_le _ _ 2 (is_command_claimed_by_another_replica e.kind) (left_finish_le 2 w)
        (omega (arith, left_error disk e w))

  left_executed :
      (disk : Disk) (answer : Answer CommandResult) (w : World)
      → left_of id (on_executed deps disk id answer w) ≤ 1
  unfolding on_executed
  left_executed disk (gives r) w =
      left_send disk r (submitting r) (record w { log = ended id ∷ w.log }) (λ p. refl)
  left_executed disk (throws e) w = left_error disk e (record w { log = ended id ∷ w.log })

  left_submitted :
      (answer : Option CommandError) (w : World) → left_of id (on_submitted id answer w) ≤ 0
  unfolding on_submitted
  left_submitted none w = left_finish_le 0 (discard id w)
  left_submitted (some e) w =
      choose_le _ _ 0 (is_command_claimed_by_another_replica e.kind)
        (left_finish_le 0 (discard id w)) (left_finish_le 0 w)

  -- Each answer that comes in its turn brings the run one wait nearer to its end.
  resumed_fetched :
      (disk : Disk) (answer : Answer CommandDetail) (w : World) (o : Option Phase)
      → lookup id w.tasks ≡ o
      → left_of id (resume_fetched deps disk id answer w o) ≤ 2
  resumed_fetched disk answer w none h = rw h (omega arith)
  resumed_fetched disk answer w (some fetching) h = left_fetched disk answer w
  resumed_fetched disk answer w (some executing) h = rw h (omega arith)
  resumed_fetched disk answer w (some (submitting r p)) h = rw h (omega arith)
  resumed_fetched disk answer w (some (reporting r p)) h = rw h (omega arith)

  resumed_executed :
      (disk : Disk) (answer : Answer CommandResult) (w : World) (o : Option Phase)
      → lookup id w.tasks ≡ o
      → waits_left o ≤ 2
      → left_of id (resume_executed deps disk id answer w o) ≤ 1
  resumed_executed disk answer w none h le = rw h (omega arith)
  resumed_executed disk answer w (some fetching) h le = absurd (omega arith)
  resumed_executed disk answer w (some executing) h le = left_executed disk answer w
  resumed_executed disk answer w (some (submitting r p)) h le = rw h (omega arith)
  resumed_executed disk answer w (some (reporting r p)) h le = rw h (omega arith)

  resumed_submitted :
      (answer : Option CommandError) (w : World) (o : Option Phase)
      → lookup id w.tasks ≡ o
      → waits_left o ≤ 1
      → left_of id (resume_submitted id answer w o) ≤ 0
  resumed_submitted answer w none h le = rw h (omega arith)
  resumed_submitted answer w (some fetching) h le = absurd (omega arith)
  resumed_submitted answer w (some executing) h le = absurd (omega arith)
  resumed_submitted answer w (some (submitting r p)) h le = left_submitted answer w
  resumed_submitted answer w (some (reporting r p)) h le = left_submitted answer w

  abbrev pub three_answers :
      Answer CommandDetail → Answer CommandResult → Option CommandError → Disk → List Event
  three_answers detail result submission disk =
      fetched id detail disk ∷ executed id result disk ∷ submitted id submission ∷ []

  left_after :
      (w : World) (detail : Answer CommandDetail) (result : Answer CommandResult)
      (submission : Option CommandError) (disk : Disk)
      → left_of id (run deps w (three_answers detail result submission disk)) ≤ 0
  unfolding run step
  left_after w detail result submission disk =
      let w1 = step deps w (fetched id detail disk) in
      let w2 = step deps w1 (executed id result disk) in
      resumed_submitted submission w2 (lookup id w2.tasks) refl (
        resumed_executed disk result w1 (lookup id w1.tasks) refl
          (resumed_fetched disk detail w (lookup id w.tasks) refl))

none_left : (o : Option Phase) → waits_left o ≤ 0 → o ≡ none
none_left none h = refl
none_left (some fetching) h = absurd (omega arith)
none_left (some executing) h = absurd (omega arith)
none_left (some (submitting r p)) h = absurd (omega arith)
none_left (some (reporting r p)) h = absurd (omega arith)

initial-Owned : (store : Store) → Owned (initial store).assignments (initial store).tasks
unfolding lookup
initial-Owned store k h = refl

-- Whatever has happened, once the three calls of a command's run have returned, with whatever outcome,
-- the run has ended: the command is no longer in flight and the generation of its assignment is gone.
pub run-finishes :
    (deps : TransportDeps) (store : Store) (events : List Event) (id : String)
    (detail : Answer CommandDetail) (result : Answer CommandResult)
    (submission : Option CommandError) (disk : Disk)
    → let w =
        run deps (initial store) (events ++ three_answers deps id detail result submission disk) in
      (member id w.in_flight ≡ false) × (lookup id w.assignments ≡ none)
run-finishes deps store events id detail result submission disk =
    let all_events = events ++ three_answers deps id detail result submission disk in
    let w = run deps (initial store) all_events in
    let gone : lookup id w.tasks ≡ none = none_left (lookup id w.tasks) (
      rw
        (run-append deps (initial store) events
          (three_answers deps id detail result submission disk))
        (left_after deps id (run deps (initial store) events) detail result submission disk)) in
    let (a, b, e) = run-Exclusive deps store all_events id in
    (
      e ∙ ap is_some gone,
      run-invariant deps (λ w. Owned w.assignments w.tasks) (Move-Owned deps) (initial store)
          all_events (initial-Owned store) id gone,
    )
