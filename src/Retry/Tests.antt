-- ===== src/Retry/Tests.antt =====
-- The back-off and the retry loop at concrete inputs.
use ai_support_agent_cli.Common.{
  ℕ, zero, suc, ◌+◌, ◌<◌, ◌≡◌, refl, true, false, none, some, arith, length,
}
use ai_support_agent_cli.Retry.{
  resolution, BackoffOptions, base_delay, calculate_backoff, jittered, no_response, status,
  should_retry, Attempt, returned, failed, value, with_retry,
}
use ai_support_agent_cli.Retry.Loop.{succeeds, FailsAgain, with_retry-stops}

abbrev options : BackoffOptions
options = record { base_delay_ms = 1000; attempt = 3; jitter = true; max_delay_ms = some 5000 }

delays_computed :
    (calculate_backoff options 0 ≡ 2500)
    × (calculate_backoff (record options { jitter = false; max_delay_ms = none }) 0 ≡ 8000)
unfolding calculate_backoff base_delay jittered resolution
delays_computed = (refl, refl)

abbrev overloaded : ℕ
overloaded = 503

abbrev recovers : ℕ → Attempt ℕ
recovers zero = failed (status 502)
recovers (suc zero) = failed no_response
recovers (suc (suc n)) = returned 42

abbrev broken : ℕ → Attempt ℕ
broken n = failed (status 429)

again_at : (j : ℕ) → j < 2 → FailsAgain 3 1000 recovers (λ n. 0) j
unfolding should_retry
again_at zero h = (status 502, refl, refl)
again_at (suc zero) h = (no_response, refl, refl)
again_at (suc (suc j)) h = absurd (omega arith)

with_retry-stops_example :
    ((with_retry 3 1000 recovers (λ n. 0)).ending ≡ value 42)
    × ((with_retry 3 1000 recovers (λ n. 0)).calls ≡ 2 + 1)
    × (length (with_retry 3 1000 recovers (λ n. 0)).delays ≡ 2)
with_retry-stops_example =
    with_retry-stops 3 1000 recovers (λ n. 0) 2 {e = value 42} (omega arith) again_at
      (succeeds refl)
