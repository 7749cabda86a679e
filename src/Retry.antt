-- ===== src/Retry.antt =====
-- retry-strategy.ts: the back-off delay, which errors are retried, and the retry loop.
pub mod Backoff
pub mod Loop
mod Tests
use ai_support_agent_cli.Common.{
  ℕ, zero, suc, ◌+◌, ◌-◌, ◌*◌, ◌/◌, ◌^◌, min, Bool, true, false, not, ◌||◌, Option, none, some,
  List, [], ◌∷◌, if◌then◌else◌, ltb, leb, ◌==◌,
}

-- `Math.random()` is a fraction of this.
unfoldable pub resolution : ℕ
resolution = 2 ^ 53

pub record BackoffOptions : Type 0 where
  pub base_delay_ms : ℕ
  pub attempt : ℕ
  pub jitter : Bool
  pub max_delay_ms : Option ℕ

-- The delay before the jitter.
abbrev pub capped : Option ℕ → ℕ → ℕ
capped none delay = delay
capped (some most) delay = min delay most

unfoldable pub base_delay : BackoffOptions → ℕ
base_delay o = capped o.max_delay_ms (o.base_delay_ms * 2 ^ o.attempt)

-- `Math.round(delay * (0.5 + random * 0.5))`, over the rationals, where `random` is the fraction
-- `r` of the resolution.
unfoldable pub jittered : ℕ → ℕ → ℕ
jittered delay r = (delay * (resolution + r) + resolution) / (2 * resolution)

unfoldable pub calculate_backoff : BackoffOptions → ℕ → ℕ
calculate_backoff o r = if not o.jitter then base_delay o else jittered (base_delay o) r

-- What a request can fail with: `other` is no axios error.
pub data RequestError : Type 0 where
  other : RequestError
  no_response : RequestError
  status : ℕ → RequestError

unfoldable pub should_retry : RequestError → Bool
should_retry other = true
should_retry no_response = true
should_retry (status s) = if s == 408 || s == 429 then true else if leb 500 s then true else false

pub data Attempt (A : Type 0) : Type 0 where
  returned : A → Attempt A
  failed : RequestError → Attempt A

-- How `withRetry` ends. With no attempt made it throws `undefined`.
pub data Ending (A : Type 0) : Type 0 where
  value : A → Ending A
  thrown : Option RequestError → Ending A

-- The end, the number of calls of `fn`, and the delays slept through.
pub record Run (A : Type 0) : Type 0 where
  pub ending : Ending A
  pub calls : ℕ
  pub delays : List ℕ

module _ {A : Type 0} (max_retries base_delay_ms : ℕ) (fn : ℕ → Attempt A) (random : ℕ → ℕ) where
  abbrev pub delay_after : ℕ → ℕ
  delay_after attempt =
      calculate_backoff
        (record {
          base_delay_ms = base_delay_ms;
          attempt = attempt;
          jitter = true;
          max_delay_ms = none;
        })
        (random attempt)

  abbrev pub finish : Ending A → Run A
  finish e = record { ending = e; calls = 1; delays = [] }

  abbrev pub next : ℕ → Run A → Run A
  next attempt rest = record {
    ending = rest.ending;
    calls = suc rest.calls;
    delays =
        if ltb attempt (max_retries - 1) then delay_after attempt ∷ rest.delays else rest.delays;
  }

  -- The loop with `left` rounds to go; `fn n` is the outcome of the call number `n`.
  unfoldable pub retry_loop : ℕ → ℕ → Option RequestError → Run A
  retry_loop zero attempt last_error = record { ending = thrown last_error; calls = 0; delays = [] }
  retry_loop (suc left) attempt last_error =
      let rest = λ (e : RequestError). retry_loop left (suc attempt) (some e) in
      elim (fn attempt) [
        | returned a ↦ finish (value a)
        | failed e ↦
            if not (should_retry e) then finish (thrown (some e)) else next attempt (rest e)
      ]

  unfoldable pub with_retry : Run A
  unfolding retry_loop
  with_retry = retry_loop max_retries 0 none
