-- ===== src/Transport.antt =====
-- agent-transport.ts: how a command is taken, executed and answered. `processCommand` waits three times,
-- for the command, for its execution and for the submission; what it does between two waits is one
-- function here, so that the runs of several commands can interleave in every order.
pub mod Moves
pub mod Notify
pub mod Exclusive
pub mod Draining
pub mod Apart
pub mod Durable
pub mod Keeping
pub mod Assignments
pub mod Finishing
mod Tests
use ai_support_agent_cli.Common.{
  ℕ, zero, suc, ◌+◌, ◌-◌, Bool, true, false, not, ◌&&◌, ◌||◌, Option, none, some, List, [], ◌∷◌,
  String, if◌then◌else◌, str_eq, ◌==◌, is_some, insert, remove, lookup, has, member, add, erase,
}
use ai_support_agent_cli.Retry.{RequestError, other, no_response, status}
use ai_support_agent_cli.Pending.{
  CommandResult, success, failure, PendingResult, Store, save_pending_result, remove_pending_result,
}

-- What a call throws, with the text that `getErrorMessage` makes of it.
pub record CommandError : Type 0 where
  pub kind : RequestError
  pub message : String

unfoldable pub is_command_claimed_by_another_replica : RequestError → Bool
is_command_claimed_by_another_replica other = false
is_command_claimed_by_another_replica no_response = false
is_command_claimed_by_another_replica (status s) = s == 409

pub record TransportDeps : Type 0 where
  pub agent_id : String
  pub instance_id : String
  pub api_url : String
  pub token : String
  pub tenant_code : String
  pub project_code : String

-- Where a run of `processCommand` waits: for `getCommand`, for `executeCommand`, for the submission of
-- its result (with whether that was written to disk), for the submission of the error of its `catch`.
pub data Phase : Type 0 where
  fetching : Phase
  executing : Phase
  submitting : CommandResult → Bool → Phase
  reporting : CommandResult → Bool → Phase

-- The start and the end of a call of `executeCommand`.
pub data Mark : Type 0 where
  started : String → Mark
  ended : String → Mark

-- `in_flight` is `inFlightCommands`, `assignments` the client's `assignmentGenerations`, `store` the
-- folder of pending results; `tasks` are the runs that are waiting, `log` has the last mark first, and
-- `sent` the submitted results with the generation in their header.
pub record World : Type 0 where
  pub draining : Bool
  pub in_flight : List String
  pub assignments : List (String × ℕ)
  pub store : Store
  pub tasks : List (String × Phase)
  pub log : List Mark
  pub sent : List (String × CommandResult × Option ℕ)

-- The command that `getCommand` gives, as far as an assignment goes.
pub record CommandDetail : Type 0 where
  pub assigned_instance_id : Option String
  pub assignment_generation : Option ℕ

pub data Answer (A : Type 0) : Type 0 where
  gives : A → Answer A
  throws : CommandError → Answer A

-- The time at which a result is saved, and whether the disk takes it.
pub record Disk : Type 0 where
  pub now : ℕ
  pub writable : Bool

pub data Event : Type 0 where
  arrives : String → Event
  fetched : String → Answer CommandDetail → Disk → Event
  executed : String → Answer CommandResult → Disk → Event
  submitted : String → Option CommandError → Event
  drains : Event

abbrev pub enter : String → Phase → World → World
enter id phase w = record w { tasks = insert id phase w.tasks }

-- The guards of `processCommand`.
unfoldable pub begin_command : String → World → World
begin_command id w =
    if w.draining
    then w
    else if member id w.in_flight
    then w
    else record w { in_flight = add id w.in_flight; tasks = insert id fetching w.tasks }

-- The `finally` block.
unfoldable pub finish : String → World → World
finish id w = record w {
  in_flight = erase id w.in_flight;
  assignments = remove id w.assignments;
  tasks = remove id w.tasks;
}

unfoldable pub discard : String → World → World
discard id w = record w { store = remove_pending_result id w.store }

-- The assignment is remembered only for a command that is assigned.
unfoldable pub remember : String → CommandDetail → World → World
remember id d w =
    if is_some d.assigned_instance_id
    then elim d.assignment_generation [
      | none ↦ w
      | some generation ↦ record w { assignments = insert id generation w.assignments }
    ]
    else w

abbrev pub pending_of : TransportDeps → World → Disk → String → CommandResult → PendingResult
pending_of deps w disk id result = record {
  command_id = id;
  agent_id = deps.agent_id;
  result = result;
  api_url = deps.api_url;
  token = deps.token;
  tenant_code = deps.tenant_code;
  saved_at = some disk.now;
  instance_id = some deps.instance_id;
  assignment_generation = lookup id w.assignments;
}

-- The result is saved, and then sent.
unfoldable pub save_and_send :
    TransportDeps → Disk → String → CommandResult → (Bool → Phase) → World → World
save_and_send deps disk id result phase w =
    let (persisted, store) =
      save_pending_result disk.writable (pending_of deps w disk id result) w.store in
    record w {
      store = store;
      tasks = insert id (phase persisted) w.tasks;
      sent = (id, result, lookup id w.assignments) ∷ w.sent;
    }

-- The outer `catch`.
unfoldable pub on_error : TransportDeps → Disk → String → CommandError → World → World
unfolding finish discard save_and_send
on_error deps disk id e w =
    if is_command_claimed_by_another_replica e.kind
    then finish id (discard id w)
    else save_and_send deps disk id (failure e.message) (reporting (failure e.message)) w

-- After `getCommand`.
unfoldable pub on_fetched : TransportDeps → Disk → String → Answer CommandDetail → World → World
unfolding finish on_error remember
on_fetched deps disk id (gives d) w = record (enter id executing (remember id d w)) {
  log = started id ∷ w.log;
}
on_fetched deps disk id (throws e) w =
    if is_command_claimed_by_another_replica e.kind then finish id w else on_error deps disk id e w

-- After `executeCommand`.
unfoldable pub on_executed : TransportDeps → Disk → String → Answer CommandResult → World → World
unfolding on_error save_and_send
on_executed deps disk id answer w =
    let after = record w { log = ended id ∷ w.log } in
    elim answer [
      | gives result ↦ save_and_send deps disk id result (submitting result) after
      | throws e ↦ on_error deps disk id e after
    ]

-- After `submitResult`, of a result or of an error.
unfoldable pub on_submitted : String → Option CommandError → World → World
unfolding finish discard
on_submitted id none w = finish id (discard id w)
on_submitted id (some e) w =
    if is_command_claimed_by_another_replica e.kind then finish id (discard id w) else finish id w

-- What the end of a wait does, given where the run of the command waits.
abbrev pub resume_fetched :
    TransportDeps → Disk → String → Answer CommandDetail → World → Option Phase → World
resume_fetched deps disk id answer w (some fetching) = on_fetched deps disk id answer w
resume_fetched deps disk id answer w none = w
resume_fetched deps disk id answer w (some executing) = w
resume_fetched deps disk id answer w (some (submitting r p)) = w
resume_fetched deps disk id answer w (some (reporting r p)) = w

abbrev pub resume_executed :
    TransportDeps → Disk → String → Answer CommandResult → World → Option Phase → World
resume_executed deps disk id answer w (some executing) = on_executed deps disk id answer w
resume_executed deps disk id answer w none = w
resume_executed deps disk id answer w (some fetching) = w
resume_executed deps disk id answer w (some (submitting r p)) = w
resume_executed deps disk id answer w (some (reporting r p)) = w

abbrev pub resume_submitted : String → Option CommandError → World → Option Phase → World
resume_submitted id answer w (some (submitting r p)) = on_submitted id answer w
resume_submitted id answer w (some (reporting r p)) = on_submitted id answer w
resume_submitted id answer w none = w
resume_submitted id answer w (some fetching) = w
resume_submitted id answer w (some executing) = w

-- One event. An event of a command that does not wait for it does not happen.
unfoldable pub step : TransportDeps → World → Event → World
unfolding begin_command on_fetched on_executed on_submitted
step deps w (arrives id) = begin_command id w
step deps w (fetched id answer disk) = resume_fetched deps disk id answer w (lookup id w.tasks)
step deps w (executed id answer disk) = resume_executed deps disk id answer w (lookup id w.tasks)
step deps w (submitted id answer) = resume_submitted id answer w (lookup id w.tasks)
step deps w drains = record w { draining = true }

unfoldable pub run : TransportDeps → World → List Event → World
run deps w [] = w
run deps w (e ∷ es) = run deps (step deps w e) es

-- A process that has just started, with what an earlier one left in the folder.
abbrev pub initial : Store → World
initial store = record {
  draining = false;
  in_flight = [];
  assignments = [];
  store = store;
  tasks = [];
  log = [];
  sent = [];
}
