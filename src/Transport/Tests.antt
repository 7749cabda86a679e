-- ===== src/Transport/Tests.antt =====
-- The runs of commands at concrete inputs.
use ai_support_agent_cli.Common.{
  ◌≡◌, ◌≤◌, ◌++◌, refl, true, false, none, some, List, [], ◌∷◌, String, lookup, insert, remove, has,
  member, add, erase, str_eq, differ-str_eq, ◌≢◌, if◌then◌else◌,
}
use ai_support_agent_cli.Retry.{no_response}
use ai_support_agent_cli.Pending.{success, save_pending_result, remove_pending_result}
use ai_support_agent_cli.Pending.Laws.{WellFormed}
use ai_support_agent_cli.Transport.{
  CommandError, TransportDeps, submitting, World, CommandDetail, gives, throws, Disk, Event,
  arrives, fetched, executed, submitted, drains, begin_command, finish, discard, remember,
  save_and_send, on_fetched, on_executed, on_submitted, step, run, initial,
  is_command_claimed_by_another_replica,
}
use ai_support_agent_cli.Transport.Moves.{Waits}
use ai_support_agent_cli.Transport.Exclusive.{open_runs, executions, run-Exclusive}
use ai_support_agent_cli.Transport.Draining.{run-Drained}
use ai_support_agent_cli.Transport.Finishing.{three_answers, run-finishes}
use ai_support_agent_cli.Transport.Durable.{result_in}
use ai_support_agent_cli.Transport.Keeping.{submitted-keeps_result}
use ai_support_agent_cli.Transport.Notify.{Content, tool_policy}

abbrev deps : TransportDeps
deps = record {
  agent_id = "agent-1";
  instance_id = "pod-1";
  api_url = "https://api";
  token = "t";
  tenant_code = "acme";
  project_code = "web";
}

abbrev disk : Disk
disk = record { now = 1000; writable = true }

abbrev detail : CommandDetail
detail = record { assigned_instance_id = some "pod-1"; assignment_generation = some 4 }

abbrev away : CommandError
away = record { kind = no_response; message = "connect ECONNREFUSED" }

-- The command is announced twice, and runs once.
abbrev executing_now : List Event
executing_now = arrives "cmd-1" ∷ fetched "cmd-1" (gives detail) disk ∷ arrives "cmd-1" ∷ []

abbrev submitting_now : List Event
submitting_now = executing_now ++ (executed "cmd-1" (gives (success "42")) disk ∷ [])

abbrev after : List Event → World
after events = run deps (initial []) events

run_computed :
    ((after submitting_now).sent ≡ ("cmd-1", success "42", some 4) ∷ [])
    × ((after (submitting_now ++ (submitted "cmd-1" (some away) ∷ []))).in_flight ≡ [])
    × ((after (submitting_now ++ (submitted "cmd-1" none ∷ []))).store ≡ [])
    × ((after (drains ∷ submitting_now)).sent ≡ [])
unfolding run step begin_command on_fetched on_executed on_submitted remember save_and_send finish
    discard save_pending_result remove_pending_result lookup insert remove member add erase
    is_command_claimed_by_another_replica
run_computed = (refl, refl, refl, refl)

run-Exclusive_example :
    let w = run deps (initial []) executing_now in
    (open_runs "cmd-1" w.log ≤ 1)
    × (open_runs "cmd-1" w.log ≡ executions (lookup "cmd-1" w.tasks))
    × (member "cmd-1" w.in_flight ≡ has "cmd-1" w.tasks)
run-Exclusive_example = run-Exclusive deps [] executing_now "cmd-1"

abbrev draining : World
draining = record (initial []) { draining = true }

not_in_flight : member "cmd-1" draining.in_flight ≡ false
unfolding member
not_in_flight = refl

run-Drained_example :
    ((run deps draining submitting_now).draining ≡ true)
    × (member "cmd-1" (run deps draining submitting_now).in_flight ≡ false)
run-Drained_example = run-Drained deps draining submitting_now "cmd-1" refl not_in_flight

run-finishes_example :
    let w =
      run deps (initial []) (
        executing_now
        ++ three_answers deps "cmd-1" (gives detail) (throws away) (some away) disk) in
    (member "cmd-1" w.in_flight ≡ false) × (lookup "cmd-1" w.assignments ≡ none)
run-finishes_example =
    run-finishes deps [] executing_now "cmd-1" (gives detail) (throws away) (some away) disk

empty-WellFormed : WellFormed []
empty-WellFormed = (tt, tt)

Waits-for_server :
    Waits "cmd-1" (submitting (success "42") true) (run deps (initial []) submitting_now)
unfolding run step begin_command on_fetched on_executed remember save_and_send save_pending_result
    lookup insert member add
Waits-for_server = refl

-- Another command arrives, and then the process drains.
abbrev other_command : List Event
other_command = arrives "cmd-2" ∷ drains ∷ []

arrives_apart : (s t : String) → str_eq s t ≡ false → arrives s ≢ arrives t
arrives_apart s t differ h = differ-str_eq s t differ (same h)
  where
    same : arrives s ≡ arrives t → s ≡ t
    same e = cc

submitted-keeps_result_example :
    let w = run deps (initial []) submitting_now in
    (result_in (lookup "cmd-1" w.store) ≡ some (success "42"))
    × (lookup "cmd-1" (step deps w (submitted "cmd-1" none)).store ≡ none)
    × ((e : CommandError)
        → if is_command_claimed_by_another_replica e.kind
          then lookup "cmd-1" (step deps w (submitted "cmd-1" (some e))).store ≡ none
          else result_in (
              lookup "cmd-1"
                (run deps (step deps w (submitted "cmd-1" (some e))) other_command).store)
            ≡ some (success "42"))
submitted-keeps_result_example =
    submitted-keeps_result deps [] submitting_now other_command "cmd-1" (success "42")
      Waits-for_server (arrives_apart "cmd-2" "cmd-1" refl, ((λ h. cc), tt))

abbrev announcement : Content
announcement = record {
  command_id = some "cmd-1";
  agent_id = none;
  tenant_code = some "acme";
  project_code = some "web";
  alert_number = none;
}

abbrev claimed_payload : List (String × String)
claimed_payload = (tool_policy, "all") ∷ ("message", "hi") ∷ []
