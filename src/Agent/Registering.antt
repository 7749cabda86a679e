-- ===== src/Agent/Registering.antt =====
-- project-agent.ts: the register loop. What it does between two waits is one function.
use ai_support_agent_cli.Common.{
  ℕ, suc, ◌*◌, max, Bool, true, false, not, ◌||◌, Option, none, some, ◌∷◌, if◌then◌else◌, str_eq,
  ltb,
}
use ai_support_agent_cli.Retry.{calculate_backoff}
use ai_support_agent_cli.Agent.State.{
  Mode, initial, standby, Response, Wait, refreshing, registering, parked, asking_again, recovering,
  syncing, resting, connecting, backing_off, asked, serving, Agent,
}

abbrev pub initial_config_sync_max_retries : ℕ
initial_config_sync_max_retries = 3

abbrev pub wait : Wait → Agent → Agent
wait w a = record a { waiting = some w }

-- The loop ends: `isRegistering` is reset.
unfoldable pub end_loop : Agent → Agent
end_loop a = record a { waiting = none; is_registering = false }

-- The test of the loop.
unfoldable pub enter_loop : Agent → Agent
unfolding end_loop
enter_loop a = if a.cancelled then end_loop a else wait refreshing a

unfoldable pub start : Agent → Agent
unfolding enter_loop
start a =
    if a.is_registering
    then a
    else enter_loop
        (record a { is_registering = true; cancelled = false; attempt = 0; loops = suc a.loops })

unfoldable pub cancel_register_loop : Agent → Agent
cancel_register_loop a = record a { generation = suc a.generation; cancelled = true }

unfoldable pub clear_alert_timers : Agent → Agent
clear_alert_timers a = record a { alert_timers = false }

-- `stopTransport`
abbrev pub stop_transport : Agent → Agent
stop_transport a = record a { transport_up = false; debounce_timer = false }

unfoldable pub stop_work : Agent → Agent
unfolding clear_alert_timers
stop_work a = stop_transport (record (clear_alert_timers a) { flush_timer = false })

unfoldable pub stop : Agent → Agent
unfolding cancel_register_loop stop_work
stop a = stop_work (cancel_register_loop a)

unfoldable pub restart_register_loop : Bool → Agent → Agent
restart_register_loop delayed a = record a {
  restarts =
      record {
        number = a.restart_count;
        generation = a.generation;
        loop = a.loops;
        delayed = delayed;
      }
      ∷ a.restarts;
  restart_count = suc a.restart_count;
}

-- The call of `register`.
abbrev pub ask : Mode → Wait → Agent → Agent
ask mode w a = record a { waiting = some w; log = asked mode ∷ a.log }

abbrev pub register_auth_error_delay_ms : ℕ
register_auth_error_delay_ms = 5 * 60 * 1000

abbrev pub register_retry_base_delay_ms : ℕ
register_retry_base_delay_ms = 1000

abbrev pub register_retry_max_delay_ms : ℕ
register_retry_max_delay_ms = 60000

-- The delay after a failure; `random` is what `Math.random()` gives.
unfoldable pub failure_delay : Bool → ℕ → ℕ → ℕ
failure_delay is_auth attempt random =
    let delay =
      calculate_backoff
        (record {
          base_delay_ms =
              if is_auth then register_auth_error_delay_ms else register_retry_base_delay_ms;
          attempt = attempt;
          jitter = true;
          max_delay_ms = some register_retry_max_delay_ms;
        })
        random in
    if is_auth then max delay register_auth_error_delay_ms else delay

-- What a call of the loop throws: whether `isAuthenticationError` holds of it.
pub record Failure : Type 0 where
  pub is_auth : Bool
  pub random : ℕ

-- The `catch` of the loop.
unfoldable pub on_failure : Failure → Agent → Agent
unfolding end_loop failure_delay
on_failure e a = if a.cancelled then end_loop a else record a {
  waiting = some (backing_off (failure_delay e.is_auth a.attempt e.random));
  attempt = suc a.attempt;
}

-- The slot is held, and what earlier runs left is sent.
unfoldable pub admitted : Response → Agent → Agent
admitted r a = record a { slot_held = true; waiting = some (recovering r) }

-- The loop of `waitForAdmission`, at its test.
unfoldable pub await_slot : Agent → Agent
unfolding end_loop
await_slot a = if a.cancelled then end_loop a else wait parked a

unfoldable pub on_refreshed : Agent → Agent
on_refreshed a = ask a.next_mode registering a

unfoldable pub on_registered : Response → Agent → Agent
unfolding admitted await_slot
on_registered r a = if r.accepted then admitted r a else await_slot a

unfoldable pub on_unparked : Agent → Agent
unfolding end_loop
on_unparked a = if a.cancelled then end_loop a else ask standby asking_again a

-- After `waitForAdmission` a cancelled loop ends, whatever the answer was.
unfoldable pub on_asked_again : Option Response → Agent → Agent
unfolding admitted await_slot end_loop
on_asked_again none a = await_slot a
on_asked_again (some r) a =
    if r.accepted then if a.cancelled then end_loop a else admitted r a else await_slot a

unfoldable pub on_recovered : Response → Agent → Agent
on_recovered r a = record a { recovered = true; flush_timer = true; waiting = some (syncing r 1) }

-- `startServices` up to its wait, with the test before it. `e` is what a failure is like.
unfoldable pub start_services : Response → Failure → Agent → Agent
unfolding end_loop on_failure
start_services r e a =
    if a.cancelled
    then end_loop a
    else if not r.has_url || str_eq a.token ""
    then on_failure e a
    else wait connecting a

unfoldable pub on_synced : Response → ℕ → Bool → Failure → Agent → Agent
unfolding start_services
on_synced r attempt has_hash e a =
    if has_hash
    then start_services r e a
    else if ltb attempt initial_config_sync_max_retries
    then wait (resting r attempt) a
    else start_services r e a

-- The rest of `startServices`, and the end of the loop.
unfoldable pub on_connected : Bool → Agent → Agent
unfolding end_loop
on_connected alerts_enabled a =
    let up = record a {
      transport_up = true;
      alert_timers = a.alert_timers || alerts_enabled;
      next_mode = initial;
      log = serving ∷ a.log;
    } in
    end_loop (record up { attempt = if a.cancelled then a.attempt else 0 })
