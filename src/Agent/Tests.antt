-- ===== src/Agent/Tests.antt =====
-- The agent at concrete inputs.
use ai_support_agent_cli.Common.{
  suc, ◌+◌, ◌≤◌, true, false, none, some, List, [], ◌∷◌, ◌++◌, String, ◌≡◌, ◌≢◌, refl, length,
  member, add,
}
use ai_support_agent_cli.Transport
use ai_support_agent_cli.Transport.{TransportDeps, World, begin_command}
use ai_support_agent_cli.Agent.State.{
  initial, standby, Response, connecting, parked, asking_again, recovering, not_called, done, asked,
  evicted, serving, Agent,
}
use ai_support_agent_cli.Agent.Registering.{
  end_loop, enter_loop, start, cancel_register_loop, clear_alert_timers, stop_work, stop,
  restart_register_loop, Failure, admitted, await_slot, on_refreshed, on_registered, on_unparked,
  on_recovered, start_services, on_synced, on_connected,
}
use ai_support_agent_cli.Agent.Leaving.{
  handle_eviction, drain, do_shutdown, shut_down, try_start, resume_restart, on_restart,
}
use ai_support_agent_cli.Agent.Runs.{
  Event, refreshes, answers, recovers, syncs, connects, elapses, restarts_now, evicts, shuts_down,
  polls, released, works, step, run, fresh,
}
use ai_support_agent_cli.Agent.Closing.{asked_in, about_to_ask, shut_down-silences}
use ai_support_agent_cli.Agent.Releasing.{Idle, run-releases, shut_down-finishes}
use ai_support_agent_cli.Agent.Waiting.{
  rejects, breaks, Refusal, rounds, standby_marks, standby-is_admitted,
}
use ai_support_agent_cli.Agent.Lost.{standby-loses_slot}

abbrev deps : TransportDeps
deps = record {
  agent_id = "agent-1";
  instance_id = "pod-a";
  api_url = "https://api.example.com";
  token = "t1";
  tenant_code = "acme";
  project_code = "web";
}

abbrev world : World
world = Transport.initial []

abbrev yes_please : Response
yes_please = record { accepted = true; has_url = true }

abbrev no_room : Response
no_room = record { accepted = false; has_url = true }

abbrev timeout : Failure
timeout = record { is_auth = false; random = 0 }

-- The agent gets a slot and serves, then loses the slot and asks again.
abbrev eviction : List Event
eviction =
    refreshes
    ∷ answers yes_please
    ∷ recovers
    ∷ syncs true timeout
    ∷ connects false
    ∷ evicts
    ∷ restarts_now 0
    ∷ refreshes
    ∷ []

eviction_computed :
    (run deps (start (fresh "t1" world)) eviction).log
    ≡ asked standby ∷ evicted ∷ serving ∷ asked initial ∷ []
unfolding run step on_refreshed on_registered admitted await_slot on_recovered on_synced
    start_services on_connected end_loop start enter_loop handle_eviction stop cancel_register_loop
    stop_work clear_alert_timers restart_register_loop on_restart resume_restart try_start
    on_unparked shut_down do_shutdown drain begin_command member add Transport.step
eviction_computed = refl

-- An agent that connects its services.
abbrev connecting_agent : Agent
connecting_agent = record (fresh "t1" world) {
  is_registering = true;
  slot_held = true;
  recovered = true;
  flush_timer = true;
  loops = 1;
  waiting = some connecting;
}

-- A slot is held, one command is taken, and it drives the shutdown itself.
abbrev reboot : List Event
reboot =
    refreshes
    ∷ answers yes_please
    ∷ works (Transport.arrives "reboot-1")
    ∷ shuts_down (some "reboot-1") false
    ∷ []

run-releases_example :
    let a = run deps (start (fresh "t1" world)) reboot in
    (a.releases ≤ 1) × (a.releases ≢ 0 → Idle a)
run-releases_example = run-releases deps "t1" world reboot

reboot_computed :
    ((run deps (start (fresh "t1" world)) reboot).releases ≡ 1)
    × ((run deps (start (fresh "t1" world)) reboot).world.in_flight ≡ "reboot-1" ∷ [])
unfolding run step on_refreshed on_registered admitted await_slot on_recovered on_synced
    start_services on_connected end_loop start enter_loop handle_eviction stop cancel_register_loop
    stop_work clear_alert_timers restart_register_loop on_restart resume_restart try_start
    on_unparked shut_down do_shutdown drain begin_command member add Transport.step
reboot_computed = (refl, refl)

shut_down-silences_example :
    let a = run deps (start (fresh "t1" world)) [] in
    let b = run deps (shut_down none false a) eviction in
    (b.loops ≡ a.loops)
    × (asked_in b.log ≤ asked_in a.log + about_to_ask a.waiting)
    × ((k : String) → member k a.world.in_flight ≡ false → member k b.world.in_flight ≡ false)
shut_down-silences_example = shut_down-silences deps "t1" world [] eviction none false open_now
  where
    open_now : (run deps (start (fresh "t1" world)) []).shutdown ≡ not_called
    open_now = unfold run start enter_loop in refl

abbrev serving_agent : Agent
serving_agent = record (fresh "t1" world) { transport_up = true; slot_held = true }

shut_down-finishes_example :
    let b = run deps (shut_down none false serving_agent) (polls true ∷ released ∷ []) in
    (b.shutdown ≡ done) × (b.transport_up ≡ false)
shut_down-finishes_example = shut_down-finishes deps serving_agent none false refl

abbrev parked_agent : Agent
parked_agent = record (fresh "t1" world) { waiting = some parked }

abbrev refusals : List Refusal
refusals = rejects true ∷ breaks timeout ∷ []

standby-is_admitted_example :
    run deps parked_agent (rounds refusals ++ (elapses ∷ answers yes_please ∷ []))
    ≡ record parked_agent {
      slot_held = true;
      waiting = some (recovering yes_please);
      log = standby_marks (suc (length refusals)) [];
    }
standby-is_admitted_example =
    standby-is_admitted deps parked_agent refusals yes_please refl refl refl

-- Parked after a rejection, with a command from before in flight.
abbrev asking : List Event
asking = refreshes ∷ answers no_room ∷ elapses ∷ works (Transport.arrives "job-1") ∷ []

abbrev at_shutdown : Agent
at_shutdown = run deps (start (fresh "t1" world)) asking

open_then : at_shutdown.shutdown ≡ not_called
unfolding run step on_refreshed on_registered admitted await_slot on_recovered on_synced
    start_services on_connected end_loop start enter_loop handle_eviction stop cancel_register_loop
    stop_work clear_alert_timers restart_register_loop on_restart resume_restart try_start
    on_unparked shut_down do_shutdown drain begin_command member add Transport.step
open_then = refl

asking_then : (run deps (shut_down none false at_shutdown) []).waiting ≡ some asking_again
unfolding run step on_refreshed on_registered admitted await_slot on_recovered on_synced
    start_services on_connected end_loop start enter_loop handle_eviction stop cancel_register_loop
    stop_work clear_alert_timers restart_register_loop on_restart resume_restart try_start
    on_unparked shut_down do_shutdown drain begin_command member add Transport.step
asking_then = refl

none_held_then : (run deps (shut_down none false at_shutdown) []).slot_held ≡ false
unfolding run step on_refreshed on_registered admitted await_slot on_recovered on_synced
    start_services on_connected end_loop start enter_loop handle_eviction stop cancel_register_loop
    stop_work clear_alert_timers restart_register_loop on_restart resume_restart try_start
    on_unparked shut_down do_shutdown drain begin_command member add Transport.step
none_held_then = refl

standby-loses_slot_example :
    let a = run deps (shut_down none false at_shutdown) [] in
    ((run deps (step deps a (answers yes_please)) []).slot_held ≡ false)
    × ((run deps (step deps a (answers yes_please)) []).releases ≡ a.releases)
standby-loses_slot_example =
    standby-loses_slot deps "t1" world asking [] [] none false yes_please open_then asking_then
      none_held_then refl
