-- ===== src/Agent/Leaving.antt =====
-- project-agent.ts: an eviction, a new token and the shutdown, and the restarts of the register loop.
use ai_support_agent_cli.Common.{
  ℕ, suc, Bool, true, false, not, ◌&&◌, Option, none, some, List, [], ◌∷◌, String, if◌then◌else◌,
  ◌==◌, is_some, is_empty, member, add, filter,
}
use ai_support_agent_cli.Agent.State.{
  standby, Restart, not_called, draining, releasing, done, evicted, Agent,
}
use ai_support_agent_cli.Agent.Registering.{
  start, cancel_register_loop, clear_alert_timers, stop_transport, stop, restart_register_loop,
}

-- A heartbeat says that the slot is gone.
unfoldable pub handle_eviction : Agent → Agent
unfolding stop restart_register_loop
handle_eviction a =
    let gone = record a { slot_held = false } in
    elim a.shutdown [
      | not_called ↦
          if a.cancelled
          then gone
          else restart_register_loop true
              (stop (record gone { next_mode = standby; log = evicted ∷ a.log }))
      | _ ↦ gone
    ]

unfoldable pub update_token : String → Agent → Agent
unfolding stop restart_register_loop
update_token token a = elim a.shutdown [
  | not_called ↦ restart_register_loop false (stop (record a { token = token }))
  | _ ↦ a
]

abbrev pub remaining : Agent → List String
remaining a = filter (λ id. not (member id a.excluded)) a.world.in_flight

abbrev pub finish_shutdown : Agent → Agent
finish_shutdown a = record (stop_transport a) { shutdown = done }

-- `waitForDrain` at its test, and what follows it; `expired` says that the deadline has passed.
unfoldable pub drain : Bool → Agent → Agent
drain expired a =
    if is_empty (remaining a)
    then if a.slot_held
      then record a { shutdown = releasing; releases = suc a.releases }
      else finish_shutdown a
    else if expired
    then finish_shutdown a
    else record a { shutdown = draining }

-- `doShutdown` up to its first wait.
unfoldable pub do_shutdown : Bool → Agent → Agent
unfolding cancel_register_loop clear_alert_timers drain
do_shutdown expired a = drain expired (
    clear_alert_timers (
      cancel_register_loop (record a {
        shutdown = draining;
        world = record a.world { draining = true };
        debounce_timer = false;
      })))

abbrev pub exclude : Option String → Agent → Agent
exclude id a = record a {
  excluded = elim id [ none ↦ a.excluded | some excluded_id ↦ add excluded_id a.excluded ];
}

-- `shutdown`, with the id to exclude, if one is given.
unfoldable pub shut_down : Option String → Bool → Agent → Agent
unfolding do_shutdown
shut_down id expired a = elim a.shutdown [
  | not_called ↦ do_shutdown expired (exclude id a)
  | _ ↦ exclude id a
]

-- A restart that was put off and is still wanted.
unfoldable pub try_start : Restart → Agent → Agent
unfolding start
try_start r a = if a.generation == r.generation then start a else a

abbrev pub forget : ℕ → Agent → Agent
forget number a = record a { restarts = filter (λ r. not (r.number == number)) a.restarts }

-- The promise of the loop `n` has settled.
abbrev pub has_ended : ℕ → Agent → Bool
has_ended n a = not (a.loops == n && is_some a.waiting)

-- A restart goes on, where it can: the loop before it has ended and its delay, if any, is over.
unfoldable pub resume_restart : Restart → Agent → Agent
unfolding try_start
resume_restart r a = if has_ended r.loop a then try_start r (forget r.number a) else a

abbrev pub find_restart : ℕ → List Restart → Option Restart
find_restart number [] = none
find_restart number (r ∷ rs) = if r.number == number then some r else find_restart number rs

unfoldable pub on_restart : ℕ → Agent → Agent
unfolding resume_restart
on_restart number a = elim (find_restart number a.restarts) [
  | none ↦ a
  | some r ↦ resume_restart r a
]
