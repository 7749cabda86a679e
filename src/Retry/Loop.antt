-- ===== src/Retry/Loop.antt =====
-- What the retry loop does: it stops at the first call that succeeds or fails for good.
use native.Mathlib.Decide.{ℕ_discrete}
use ai_support_agent_cli.Common.{
  ℕ, zero, suc, ◌+◌, ◌-◌, ◌≤◌, ◌<◌, true, false, Option, none, some, arith, ◌≡◌, ◌⊎◌, refl, length,
}
use ai_support_agent_cli.Retry.{
  RequestError, status, should_retry, Attempt, returned, failed, Ending, value, thrown, Run,
  retry_loop, with_retry, next,
}

-- The statuses that are tried again, and no others: 408, 429 and those from 500 on.
pub should_retry_iff :
    (s : ℕ)
    → (should_retry (status s) ≡ true → (s ≡ 408) ⊎ ((s ≡ 429) ⊎ (500 ≤ s)))
      × ((s ≡ 408) ⊎ ((s ≡ 429) ⊎ (500 ≤ s)) → should_retry (status s) ≡ true)
unfolding should_retry
should_retry_iff s = (λ h. ground arith, λ h. ground arith)

module _ {A : Type 0} (max_retries base_delay_ms : ℕ) (fn : ℕ → Attempt A) (random : ℕ → ℕ) where
  -- The call number `n` fails with an error that is tried again.
  abbrev pub FailsAgain : ℕ → Type 0
  FailsAgain n = (e : RequestError) × (fn n ≡ failed e) × (should_retry e ≡ true)

  -- The call number `n` ends the loop in this way.
  pub data Ends (n : ℕ) : Ending A → Type 0 where
    succeeds : {a : A} → fn n ≡ returned a → Ends n (value a)
    fails_for_good :
        {e : RequestError} → fn n ≡ failed e → should_retry e ≡ false → Ends n (thrown (some e))

  abbrev run : ℕ → ℕ → Option RequestError → Run A
  run = retry_loop max_retries base_delay_ms fn random

  run_end :
      (left attempt : ℕ) (last : Option RequestError) {e : Ending A}
      → Ends attempt e
      → ((run (suc left) attempt last).ending ≡ e)
        × ((run (suc left) attempt last).calls ≡ 1)
        × (length (run (suc left) attempt last).delays ≡ 0)
  unfolding retry_loop
  run_end left attempt last (succeeds h) = rw (h, retry_loop) (refl, refl, refl)
  run_end left attempt last (fails_for_good h k) = rw (h, retry_loop, k) (refl, refl, refl)

  run-next :
      (left attempt : ℕ) (last : Option RequestError)
      → (f : FailsAgain attempt)
      → run (suc left) attempt last
        ≡ next max_retries base_delay_ms fn random attempt (run left (suc attempt) (some (f.0)))
  unfolding retry_loop
  run-next left attempt last (e, h, k) = rw (h, retry_loop, k) refl

  run_stops :
      (left attempt n : ℕ) (last : Option RequestError) {e : Ending A}
      → attempt ≤ n
      → n < attempt + left
      → attempt + left ≡ max_retries
      → ((j : ℕ) → attempt ≤ j → j < n → FailsAgain j)
      → Ends n e
      → ((run left attempt last).ending ≡ e)
        × ((run left attempt last).calls + attempt ≡ n + 1)
        × (length (run left attempt last).delays + attempt ≡ n)
  run_stops zero attempt n last lo hi sum again ends = absurd (omega arith)
  run_stops (suc left) attempt n last {e} lo hi sum again ends = elim (ℕ_discrete attempt n) [
    | yes same ↦
        let (a, b, c) = run_end left attempt last {e = e} (rw same ends) in
        (a, omega arith, omega arith)
    | no differ ↦
        let f = again attempt (omega arith) (omega arith) in
        let (a, b, c) =
          run_stops left (suc attempt) n (some (f.0)) {e = e} (omega arith) (omega arith)
            (omega arith) (λ j p q. again j (omega arith) q) ends in
        rw (run-next left attempt last f) (a, omega arith, ground arith)
  ]

  run_exhausts :
      (left attempt : ℕ) (last : Option RequestError)
      → 0 < left
      → attempt + left ≡ max_retries
      → ((j : ℕ) → attempt ≤ j → j < max_retries → FailsAgain j)
      → (f : FailsAgain (max_retries - 1))
      → ((run left attempt last).ending ≡ thrown (some (f.0)))
        × ((run left attempt last).calls + attempt ≡ max_retries)
        × (length (run left attempt last).delays + attempt + 1 ≡ max_retries)
  run_exhausts zero attempt last pos sum again f = absurd (omega arith)
  run_exhausts (suc zero) attempt last pos sum again f =
      let g = again attempt (omega arith) (omega arith) in
      let here : attempt ≡ max_retries - 1 = omega arith in
      rw (run-next zero attempt last g)
        (unfold retry_loop in (cc (rw here at (g.1), f.1), omega arith, ground arith))
  run_exhausts (suc (suc left)) attempt last pos sum again f =
      let g = again attempt (omega arith) (omega arith) in
      let (a, b, c) =
        run_exhausts (suc left) (suc attempt) (some (g.0)) (omega arith) (omega arith)
          (λ j p q. again j (omega arith) q) f in
      rw (run-next (suc left) attempt last g) (a, omega arith, ground arith)

  abbrev result : Run A
  result = with_retry max_retries base_delay_ms fn random

  -- If the calls before number `n` all fail with errors that are tried again, and call `n`, which is
  -- among the first `max_retries`, succeeds or fails for good, then that is how the whole ends,
  -- after n + 1 calls, with one delay before each call but the first.
  pub with_retry-stops :
      (n : ℕ) {e : Ending A}
      → n < max_retries
      → ((j : ℕ) → j < n → FailsAgain j)
      → Ends n e
      → (result.ending ≡ e) × (result.calls ≡ n + 1) × (length result.delays ≡ n)
  unfolding with_retry
  with_retry-stops n {e} h again ends =
      let (a, b, c) =
        run_stops max_retries 0 n none {e = e} (omega arith) (omega arith) (omega arith)
          (λ j _ q. again j q) ends in
      (a, omega arith, omega arith)

  -- If the first `max_retries` calls all fail with errors that are tried again, then the error of the
  -- last of them is thrown, after exactly `max_retries` calls and one delay less.
  pub with_retry-exhausts :
      0 < max_retries
      → ((j : ℕ) → j < max_retries → FailsAgain j)
      → (f : FailsAgain (max_retries - 1))
      → (result.ending ≡ thrown (some (f.0)))
        × (result.calls ≡ max_retries)
        × (length result.delays + 1 ≡ max_retries)
  unfolding with_retry
  with_retry-exhausts h again f =
      let (a, b, c) = run_exhausts max_retries 0 none h (omega arith) (λ j _ q. again j q) f in
      (a, omega arith, omega arith)
