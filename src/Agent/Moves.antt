-- ===== src/Agent/Moves.antt =====
-- project-agent.ts: the step relation of an agent, and that every event is a step of it.
use ai_support_agent_cli.Common.{
  ℕ, suc, Bool, true, false, not, ◌||◌, Option, none, some, List, [], ◌∷◌, String, ◌≡◌, ◌≢◌, refl,
  arith, if◌then◌else◌, if_elim, str_eq, ◌==◌, ltb,
}
use ai_support_agent_cli.Transport
use ai_support_agent_cli.Transport.{TransportDeps}
use ai_support_agent_cli.Agent.State.{
  standby, Response, Wait, refreshing, registering, parked, asking_again, recovering, syncing,
  resting, connecting, backing_off, Restart, Shutdown, not_called, draining, releasing, done,
  evicted, Agent,
}
use ai_support_agent_cli.Agent.Registering.{
  initial_config_sync_max_retries, wait, end_loop, enter_loop, start, cancel_register_loop,
  clear_alert_timers, stop, restart_register_loop, ask, failure_delay, Failure, on_failure,
  admitted, await_slot, on_refreshed, on_registered, on_unparked, on_asked_again, on_recovered,
  start_services, on_synced, on_connected,
}
use ai_support_agent_cli.Agent.Leaving.{
  handle_eviction, update_token, finish_shutdown, drain, do_shutdown, exclude, shut_down, try_start,
  forget, has_ended, resume_restart, find_restart, on_restart,
}
use ai_support_agent_cli.Agent.Runs.{
  Event, refreshes, answers, recovers, syncs, connects, fails, elapses, restarts_now, evicts,
  updates_token, shuts_down, polls, released, works, resume, resume_loop, on_poll, on_released,
  step, run,
}

-- The wait is not one before a call of `register`, and not the one before services run.
abbrev pub is_quiet : Wait → Bool
is_quiet refreshing = false
is_quiet registering = false
is_quiet asking_again = false
is_quiet (recovering r) = false
is_quiet _ = true

-- A loop that has been called.
abbrev pub begun : Agent → Agent
begun a = record a {
  is_registering = true;
  cancelled = false;
  attempt = 0;
  loops = suc a.loops;
  waiting = some refreshing;
}

-- `doShutdown` before its first wait.
abbrev pub closing : Agent → Agent
closing a = record a {
  shutdown = draining;
  world = record a.world { draining = true };
  debounce_timer = false;
  generation = suc a.generation;
  cancelled = true;
  alert_timers = false;
}

module _ (deps : TransportDeps) where
  pub data Move : Agent → Agent → Type 0 where
    stays : {a : Agent} → Move a a
    ends : {a : Agent} (attempt : ℕ) → Move a (end_loop (record a { attempt = attempt }))
    begins :
        {a : Agent} (number : ℕ) (r : Restart)
        → find_restart number a.restarts ≡ some r
        → a.generation ≡ r.generation
        → a.is_registering ≡ false
        → Move a (begun (forget r.number a))
    forgets : {a : Agent} (number : ℕ) → Move a (forget number a)
    tries : {a : Agent} → a.cancelled ≡ false → Move a (wait refreshing a)
    asks : {a : Agent} → a.waiting ≡ some refreshing → Move a (ask a.next_mode registering a)
    asks_again :
        {a : Agent}
        → a.waiting ≡ some parked
        → a.cancelled ≡ false
        → Move a (ask standby asking_again a)
    goes_on :
        {a : Agent} (w : Wait) (attempt : ℕ) (recovered flush : Bool)
        → a.waiting ≢ none
        → is_quiet w ≡ true
        → Move a (record a {
          waiting = some w;
          attempt = attempt;
          recovered = recovered;
          flush_timer = flush;
        })
    gets_slot : {a : Agent} (r : Response) → a.waiting ≢ none → Move a (admitted r a)
    serves :
        {a : Agent} (alerts : Bool) → a.waiting ≡ some connecting → Move a (on_connected alerts a)
    loses_slot : {a : Agent} → Move a (record a { slot_held = false })
    is_evicted :
        {a : Agent}
        → a.shutdown ≡ not_called
        → a.cancelled ≡ false
        → Move a (
            restart_register_loop true
              (stop (record a { slot_held = false; next_mode = standby; log = evicted ∷ a.log })))
    gets_token :
        {a : Agent} (token : String)
        → a.shutdown ≡ not_called
        → Move a (restart_register_loop false (stop (record a { token = token })))
    excludes : {a : Agent} (id : Option String) → Move a (exclude id a)
    closes :
        {a : Agent} (id : Option String) (expired : Bool)
        → a.shutdown ≡ not_called
        → Move a (drain expired (closing (exclude id a)))
    polls_now : {a : Agent} (expired : Bool) → a.shutdown ≡ draining → Move a (drain expired a)
    lets_go : {a : Agent} → a.shutdown ≡ releasing → Move a (finish_shutdown a)
    works_on :
        {a : Agent} (e : Transport.Event)
        → Move a (record a { world = Transport.step deps a.world e })

  module _ (a : Agent) where
    end-Move : Move a (end_loop a)
    end-Move = ends a.attempt

    -- A test of `registerLoopCancelled`.
    tested :
        (b : Agent)
        → (a.cancelled ≡ false → Move a b)
        → Move a (if a.cancelled then end_loop a else b)
    tested b f = if_elim (Move a) a.cancelled (end_loop a) b (λ _. end-Move) f

    module _ (busy : a.waiting ≢ none) where
      failure-Move : (e : Failure) → Move a (on_failure e a)
      unfolding on_failure
      failure-Move e = tested _ (λ _.
          goes_on (backing_off (failure_delay e.is_auth a.attempt e.random)) (suc a.attempt)
            a.recovered a.flush_timer busy refl)

      quiet-Move : (w : Wait) → is_quiet w ≡ true → Move a (wait w a)
      quiet-Move w q = goes_on w a.attempt a.recovered a.flush_timer busy q

      await_slot-Move : Move a (await_slot a)
      unfolding await_slot
      await_slot-Move = tested _ (λ _. quiet-Move parked refl)

      services-Move : (r : Response) (e : Failure) → Move a (start_services r e a)
      unfolding start_services
      services-Move r e = tested _ (λ _.
          if_elim (Move a) (not r.has_url || str_eq a.token "") (on_failure e a) (wait connecting a)
            (λ _. failure-Move e) (λ _. quiet-Move connecting refl))

      synced-Move :
          (r : Response) (n : ℕ) (has_hash : Bool) (e : Failure)
          → Move a (on_synced r n has_hash e a)
      unfolding on_synced
      synced-Move r n has_hash e =
          if_elim (Move a) has_hash (start_services r e a) _ (λ _. services-Move r e)
            (λ _.
              if_elim (Move a) (ltb n initial_config_sync_max_retries) (wait (resting r n) a)
                (start_services r e a) (λ _. quiet-Move (resting r n) refl)
                (λ _. services-Move r e))

      again-Move : (o : Option Response) → Move a (on_asked_again o a)
      unfolding on_asked_again
      again-Move none = await_slot-Move
      again-Move (some r) =
          if_elim (Move a) r.accepted _ (await_slot a)
            (λ _. tested (admitted r a) (λ _. gets_slot r busy)) (λ _. await_slot-Move)

      registered-Move : (r : Response) → Move a (on_registered r a)
      unfolding on_registered
      registered-Move r =
          if_elim (Move a) r.accepted (admitted r a) (await_slot a) (λ _. gets_slot r busy)
            (λ _. await_slot-Move)

    is_some_wait : {w : Wait} → a.waiting ≡ some w → a.waiting ≢ none
    is_some_wait at e = cc

    resume-Move : (w : Wait) (e : Event) → a.waiting ≡ some w → Move a (resume w e a)
    unfolding on_refreshed on_unparked on_recovered enter_loop
    resume-Move refreshing refreshes at = asks at
    resume-Move registering (answers r) at = registered-Move (is_some_wait at) r
    resume-Move registering (fails e) at = failure-Move (is_some_wait at) e
    resume-Move parked elapses at = tested _ (λ open_now. asks_again at open_now)
    resume-Move asking_again (answers r) at = again-Move (is_some_wait at) (some r)
    resume-Move asking_again (fails e) at = again-Move (is_some_wait at) none
    resume-Move (recovering r) recovers at =
        goes_on (syncing r 1) a.attempt true true (is_some_wait at) refl
    resume-Move (recovering r) (fails e) at = failure-Move (is_some_wait at) e
    resume-Move (syncing r n) (syncs has_hash e) at = synced-Move (is_some_wait at) r n has_hash e
    resume-Move (syncing r n) (fails e) at = failure-Move (is_some_wait at) e
    resume-Move (resting r n) elapses at = quiet-Move (is_some_wait at) (syncing r (suc n)) refl
    resume-Move connecting (connects alerts) at = serves alerts at
    resume-Move connecting (fails e) at = failure-Move (is_some_wait at) e
    resume-Move (backing_off d) elapses at = tested _ (λ open_now. tries open_now)
    resume-Move _ _ at = stays

    loop-Move : (e : Event) → Move a (resume_loop e a)
    loop-Move e = by_wait a.waiting refl
      where
        by_wait :
            (o : Option Wait) → a.waiting ≡ o → Move a (elim o [ none ↦ a | some w ↦ resume w e a ])
        by_wait none at = stays
        by_wait (some w) at = resume-Move w e at

    restart-Move : (number : ℕ) → Move a (on_restart number a)
    unfolding on_restart resume_restart try_start start enter_loop
    restart-Move number = found (find_restart number a.restarts) refl
      where
        found :
            (o : Option Restart)
            → find_restart number a.restarts ≡ o
            → Move a (elim o [ none ↦ a | some r ↦ resume_restart r a ])
        found none e = stays
        found (some r) e =
            let left = forget r.number a in
            if_elim (Move a) (has_ended r.loop a) (try_start r left) a
              (λ _.
                if_elim (Move a) (a.generation == r.generation) (start left) left
                  (λ same.
                    if_elim (Move a) a.is_registering left (begun left) (λ _. forgets r.number)
                      (λ idle. begins number r e (ground arith) idle))
                  (λ _. forgets r.number))
              (λ _. stays)

    evict-Move : Move a (handle_eviction a)
    unfolding handle_eviction
    evict-Move = by_stage a.shutdown refl
      where
        by_stage :
            (s : Shutdown)
            → a.shutdown ≡ s
            → Move a (elim s [
              | not_called ↦
                  if a.cancelled
                  then record a { slot_held = false }
                  else restart_register_loop true (
                      stop (record a {
                        slot_held = false;
                        next_mode = standby;
                        log = evicted ∷ a.log;
                      }))
              | _ ↦ record a { slot_held = false }
            ])
        by_stage not_called e =
            if_elim (Move a) a.cancelled (record a { slot_held = false }) _ (λ _. loses_slot)
              (λ open_now. is_evicted e open_now)
        by_stage draining e = loses_slot
        by_stage releasing e = loses_slot
        by_stage done e = loses_slot

    token-Move : (token : String) → Move a (update_token token a)
    unfolding update_token
    token-Move token = by_stage a.shutdown refl
      where
        by_stage :
            (s : Shutdown)
            → a.shutdown ≡ s
            → Move a (elim s [
              | not_called ↦ restart_register_loop false (stop (record a { token = token }))
              | _ ↦ a
            ])
        by_stage not_called e = gets_token token e
        by_stage draining e = stays
        by_stage releasing e = stays
        by_stage done e = stays

    shutdown-Move : (id : Option String) (expired : Bool) → Move a (shut_down id expired a)
    unfolding shut_down do_shutdown cancel_register_loop clear_alert_timers
    shutdown-Move id expired = by_stage a.shutdown refl
      where
        by_stage :
            (s : Shutdown)
            → a.shutdown ≡ s
            → Move a (elim s [ not_called ↦ do_shutdown expired (exclude id a) | _ ↦ exclude id a ])
        by_stage not_called e = closes id expired e
        by_stage draining e = excludes id
        by_stage releasing e = excludes id
        by_stage done e = excludes id

    poll-Move : (expired : Bool) → Move a (on_poll expired a)
    poll-Move expired = by_stage a.shutdown refl
      where
        by_stage :
            (s : Shutdown) → a.shutdown ≡ s → Move a (elim s [ draining ↦ drain expired a | _ ↦ a ])
        by_stage draining e = polls_now expired e
        by_stage not_called e = stays
        by_stage releasing e = stays
        by_stage done e = stays

    released-Move : Move a (on_released a)
    released-Move = by_stage a.shutdown refl
      where
        by_stage :
            (s : Shutdown)
            → a.shutdown ≡ s
            → Move a (elim s [ releasing ↦ finish_shutdown a | _ ↦ a ])
        by_stage releasing e = lets_go e
        by_stage draining e = stays
        by_stage not_called e = stays
        by_stage done e = stays

  pub step-Move : (a : Agent) (e : Event) → Move a (step deps a e)
  unfolding step
  step-Move a (restarts_now number) = restart-Move a number
  step-Move a evicts = evict-Move a
  step-Move a (updates_token token) = token-Move a token
  step-Move a (shuts_down id expired) = shutdown-Move a id expired
  step-Move a (polls expired) = poll-Move a expired
  step-Move a released = released-Move a
  step-Move a (works e) = works_on e
  step-Move a refreshes = loop-Move a refreshes
  step-Move a (answers r) = loop-Move a (answers r)
  step-Move a recovers = loop-Move a recovers
  step-Move a (syncs h e) = loop-Move a (syncs h e)
  step-Move a (connects alerts) = loop-Move a (connects alerts)
  step-Move a (fails e) = loop-Move a (fails e)
  step-Move a elapses = loop-Move a elapses

  -- What every step keeps holds after every run.
  pub run-invariant {ℓ} :
      (I : Agent → Type ℓ)
      → ((a b : Agent) → Move a b → I a → I b)
      → (a : Agent) (events : List Event) → I a
      → I (run deps a events)
  unfolding run
  run-invariant I kept a [] h = h
  run-invariant I kept a (e ∷ es) h =
      run-invariant I kept (step deps a e) es (kept a (step deps a e) (step-Move a e) h)
