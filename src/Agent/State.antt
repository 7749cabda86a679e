-- ===== src/Agent/State.antt =====
-- project-agent.ts: the state of an agent, and where its register loop waits.
use ai_support_agent_cli.Common.{ℕ, Bool, Option, List, String}
use ai_support_agent_cli.Transport.{World}

-- `AdmissionMode`
pub data Mode : Type 0 where
  initial : Mode
  standby : Mode

-- `RegisterResponse`: whether its admission is missing or accepted, and whether it has an AppSync URL.
pub record Response : Type 0 where
  pub accepted : Bool
  pub has_url : Bool

-- Where the register loop waits. `resting` and `syncing` are in the loop of the first config syncs.
pub data Wait : Type 0 where
  refreshing : Wait
  registering : Wait
  parked : Wait
  asking_again : Wait
  recovering : Response → Wait
  syncing : Response → ℕ → Wait
  resting : Response → ℕ → Wait
  connecting : Wait
  backing_off : ℕ → Wait

-- A restart that `restartRegisterLoop` has put off: first until the loop of this number has ended, then for
-- a delay, if it has one.
pub record Restart : Type 0 where
  pub number : ℕ
  pub generation : ℕ
  pub loop : ℕ
  pub delayed : Bool

-- How far `doShutdown` has come.
pub data Shutdown : Type 0 where
  not_called : Shutdown
  draining : Shutdown
  releasing : Shutdown
  done : Shutdown

pub data Mark : Type 0 where
  asked : Mode → Mark
  evicted : Mark
  serving : Mark

-- `loops` counts the calls of `runRegisterLoop`, `waiting` is the wait of the last of them, if it has not
-- ended; `releases` counts the calls of `releaseSelf`, and `log` has the
-- last mark first: a call of `register`, an eviction that is acted on, services that have started.
pub record Agent : Type 0 where
  pub token : String
  pub is_registering : Bool
  pub cancelled : Bool
  pub attempt : ℕ
  pub generation : ℕ
  pub next_mode : Mode
  pub slot_held : Bool
  pub recovered : Bool
  pub flush_timer : Bool
  pub alert_timers : Bool
  pub transport_up : Bool
  pub debounce_timer : Bool
  pub shutdown : Shutdown
  pub excluded : List String
  pub world : World
  pub loops : ℕ
  pub waiting : Option Wait
  pub restarts : List Restart
  pub restart_count : ℕ
  pub releases : ℕ
  pub log : List Mark
