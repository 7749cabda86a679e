-- ===== src/Agent/Runs.antt =====
-- project-agent.ts: what can happen to an agent, in any order. The commands in flight are those of the
-- transport.
use ai_support_agent_cli.Common.{ℕ, suc, Bool, false, Option, none, some, List, [], ◌∷◌, String}
use ai_support_agent_cli.Transport
use ai_support_agent_cli.Transport.{TransportDeps, World}
use ai_support_agent_cli.Agent.State.{
  initial, Response, Wait, refreshing, registering, parked, asking_again, recovering, syncing,
  resting, connecting, backing_off, not_called, draining, releasing, Agent,
}
use ai_support_agent_cli.Agent.Registering.{
  wait, enter_loop, Failure, on_failure, on_refreshed, on_registered, on_unparked, on_asked_again,
  on_recovered, on_synced, on_connected,
}
use ai_support_agent_cli.Agent.Leaving.{
  handle_eviction, update_token, finish_shutdown, drain, shut_down, on_restart,
}

-- `gives` and `fails` are how the call that the loop waits for ends; `elapses` is the end of a wait for
-- some time, whether the time is over or the wait was cut short.
pub data Event : Type 0 where
  refreshes : Event
  answers : Response → Event
  recovers : Event
  syncs : Bool → Failure → Event
  connects : Bool → Event
  fails : Failure → Event
  elapses : Event
  restarts_now : ℕ → Event
  evicts : Event
  updates_token : String → Event
  shuts_down : Option String → Bool → Event
  polls : Bool → Event
  released : Event
  works : Transport.Event → Event

-- The wait of the loop ends in the way that the event says; no other event happens to it.
abbrev pub resume : Wait → Event → Agent → Agent
resume refreshing refreshes a = on_refreshed a
resume registering (answers r) a = on_registered r a
resume registering (fails e) a = on_failure e a
resume parked elapses a = on_unparked a
resume asking_again (answers r) a = on_asked_again (some r) a
resume asking_again (fails e) a = on_asked_again none a
resume (recovering r) recovers a = on_recovered r a
resume (recovering r) (fails e) a = on_failure e a
resume (syncing r n) (syncs has_hash e) a = on_synced r n has_hash e a
resume (syncing r n) (fails e) a = on_failure e a
resume (resting r n) elapses a = wait (syncing r (suc n)) a
resume connecting (connects alerts) a = on_connected alerts a
resume connecting (fails e) a = on_failure e a
resume (backing_off d) elapses a = enter_loop a
resume _ _ a = a

abbrev pub resume_loop : Event → Agent → Agent
resume_loop e a = elim a.waiting [ none ↦ a | some w ↦ resume w e a ]

abbrev pub on_poll : Bool → Agent → Agent
on_poll expired a = elim a.shutdown [ draining ↦ drain expired a | _ ↦ a ]

abbrev pub on_released : Agent → Agent
on_released a = elim a.shutdown [ releasing ↦ finish_shutdown a | _ ↦ a ]

module _ (deps : TransportDeps) where
  unfoldable pub step : Agent → Event → Agent
  unfolding on_restart handle_eviction update_token shut_down drain
  step a (restarts_now number) = on_restart number a
  step a evicts = handle_eviction a
  step a (updates_token token) = update_token token a
  step a (shuts_down id expired) = shut_down id expired a
  step a (polls expired) = on_poll expired a
  step a released = on_released a
  step a (works e) = record a { world = Transport.step deps a.world e }
  step a e = resume_loop e a

  unfoldable pub run : Agent → List Event → Agent
  unfolding step
  run a [] = a
  run a (e ∷ es) = run (step a e) es

abbrev pub fresh : String → World → Agent
fresh token world = record {
  token = token;
  is_registering = false;
  cancelled = false;
  attempt = 0;
  generation = 0;
  next_mode = initial;
  slot_held = false;
  recovered = false;
  flush_timer = false;
  alert_timers = false;
  transport_up = false;
  debounce_timer = false;
  shutdown = not_called;
  excluded = [];
  world = world;
  loops = 0;
  waiting = none;
  restarts = [];
  restart_count = 0;
  releases = 0;
  log = [];
}
