-- ===== src/Socket/Reconnect.antt =====
-- ws-reconnect.ts: `attemptReconnect`. What happens outside comes as a list of rounds, one for each
-- call of the function.
use ai_support_agent_cli.Common.{
  ℕ, suc, ◌+◌, ◌-◌, ◌≤◌, ◌<◌, Bool, true, false, Option, none, some, List, [], ◌∷◌, arith, ◌≡◌, ◌≢◌,
  if◌then◌else◌, leb, Bool-cases, inl, inr, length, All,
}
use ai_support_agent_cli.Retry.{calculate_backoff, resolution}
use ai_support_agent_cli.Retry.Backoff.{calculate_backoff_bounds}

-- `max_retries` is `none` for Infinity.
pub record ReconnectOptions : Type 0 where
  pub max_retries : Option ℕ
  pub base_delay_ms : ℕ
  pub max_delay_ms : Option ℕ

-- `closed_before` and `Closed-after` are the two answers of `isClosedFn`, before and after the sleep;
-- `connects` says whether `connectFn` resolves; `random` is the fraction of the jitter.
pub record Round : Type 0 where
  pub closed_before : Bool
  pub random : ℕ
  pub Closed-after : Bool
  pub connects : Bool

pub data Outcome : Type 0 where
  closed : Outcome  -- the connection was closed meanwhile
  gave_up : Outcome  -- `onMaxRetriesExceeded` was called
  reconnected : Outcome  -- `onReconnectedFn` was called
  pending : Outcome  -- the rounds given are over

-- The outcome, `attemptsRef.current`, the delays slept through and the calls of `connectFn`.
pub record Trace : Type 0 where
  pub outcome : Outcome
  pub attempts : ℕ
  pub delays : List ℕ
  pub connects : ℕ

abbrev pub exhausted : Option ℕ → ℕ → Bool
exhausted none attempts = false
exhausted (some most) attempts = leb most attempts

abbrev pub delay_of : ReconnectOptions → ℕ → Round → ℕ
delay_of o attempts r =
    calculate_backoff
      (record {
        base_delay_ms = o.base_delay_ms;
        attempt = attempts;
        jitter = true;
        max_delay_ms = o.max_delay_ms;
      })
      r.random

abbrev stop : Outcome → ℕ → Trace
stop outcome attempts = record { outcome = outcome; attempts = attempts; delays = []; connects = 0 }

abbrev slept : ℕ → ℕ → Trace → Trace
slept delay calls t = record {
  outcome = t.outcome;
  attempts = t.attempts;
  delays = delay ∷ t.delays;
  connects = calls + t.connects;
}

unfoldable pub attempt_reconnect : ReconnectOptions → ℕ → List Round → Trace
attempt_reconnect o attempts [] = stop pending attempts
attempt_reconnect o attempts (r ∷ rounds) =
    let again = attempt_reconnect o (suc attempts) rounds in
    if r.closed_before
    then stop closed attempts
    else if exhausted o.max_retries attempts
    then stop gave_up attempts
    else if r.Closed-after
    then slept (delay_of o attempts r) 0 (stop closed (suc attempts))
    else if r.connects
    then slept (delay_of o attempts r) 1 (stop reconnected 0)
    else slept (delay_of o attempts r) 1 again

-- With a limit, no more connections are tried than the attempts that are left, and the process of
-- reconnecting has ended once it has been given one round more than that.
pub attempt_reconnect_bounded :
    (o : ReconnectOptions) (most attempts : ℕ) (rounds : List Round)
    → o.max_retries ≡ some most
    → attempts ≤ most
    → ((attempt_reconnect o attempts rounds).connects + attempts ≤ most)
      × (most - attempts < length rounds → (attempt_reconnect o attempts rounds).outcome ≢ pending)
unfolding attempt_reconnect
attempt_reconnect_bounded o most attempts [] h le = (omega arith, λ k. absurd (omega arith))
attempt_reconnect_bounded o most attempts (r ∷ rounds) h le =
    elim (Bool-cases (leb most attempts)) [
      | inl full ↦ ground arith
      | inr room ↦ ground (arith, attempt_reconnect_bounded o most (suc attempts) rounds h)
    ]

-- Without a limit the socket never gives up. With one it gives up with exactly that many attempts
-- counted, and a successful reconnection resets the counter.
pub attempt_reconnect_outcome :
    (o : ReconnectOptions) (attempts : ℕ) (rounds : List Round)
    → (o.max_retries ≡ none → (attempt_reconnect o attempts rounds).outcome ≢ gave_up)
      × ((most : ℕ)
          → o.max_retries ≡ some most
          → attempts ≤ most
          → (attempt_reconnect o attempts rounds).outcome ≡ gave_up
          → (attempt_reconnect o attempts rounds).attempts ≡ most)
      × ((attempt_reconnect o attempts rounds).outcome ≡ reconnected
          → (attempt_reconnect o attempts rounds).attempts ≡ 0)
unfolding attempt_reconnect
attempt_reconnect_outcome o attempts [] = (λ h e. cc, λ most h le e. cc, λ h. cc)
attempt_reconnect_outcome o attempts (r ∷ rounds) =
    let (endless, limited, reset) = attempt_reconnect_outcome o (suc attempts) rounds in
    (
      λ h. ground (arith, endless h),
      λ most h le. elim (Bool-cases (leb most attempts)) [
        | inl full ↦ ground arith
        | inr room ↦ ground (arith, limited most h)
      ],
      ground (arith, reset),
    )

delay_capped :
    (o : ReconnectOptions) (attempts cap : ℕ) (r : Round)
    → o.max_delay_ms ≡ some cap
    → r.random < resolution
    → delay_of o attempts r ≤ cap
delay_capped o attempts cap r h lt =
    (calculate_backoff_bounds
        (record {
          base_delay_ms = o.base_delay_ms;
          attempt = attempts;
          jitter = true;
          max_delay_ms = o.max_delay_ms;
        })
        r.random lt).3
      cap h

-- With a cap, no delay between two attempts is longer, however long the server stays away.
pub attempt_reconnect-delays :
    (o : ReconnectOptions) (attempts cap : ℕ) (rounds : List Round)
    → o.max_delay_ms ≡ some cap
    → All (λ r. r.random < resolution) rounds
    → All (λ delay. delay ≤ cap) (attempt_reconnect o attempts rounds).delays
unfolding attempt_reconnect
attempt_reconnect-delays o attempts cap [] h lt = tt
attempt_reconnect-delays o attempts cap (r ∷ rounds) h (lt, later) =
    let this = delay_capped o attempts cap r h lt in
    let rest = attempt_reconnect-delays o (suc attempts) cap rounds h later in
    elim (Bool-cases r.closed_before) [
      | inl e ↦ rw e tt
      | inr e ↦ elim (Bool-cases (exhausted o.max_retries attempts)) [
        | inl e' ↦ rw (e, e') tt
        | inr e' ↦ elim (Bool-cases r.Closed-after) [
          | inl c ↦ simp (e, e', c) (this, tt)
          | inr c ↦ elim (Bool-cases r.connects) [
            | inl k ↦ simp (e, e', c, k) (this, tt)
            | inr k ↦ simp (e, e', c, k) (this, rest)
          ]
        ]
      ]
    ]
