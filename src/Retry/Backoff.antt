-- ===== src/Retry/Backoff.antt =====
-- The range of the back-off delay.
use ai_support_agent_cli.Common.{
  ℕ, ◌+◌, ◌*◌, ◌/◌, ◌≤◌, ◌<◌, false, some, arith, ◌≡◌, refl, Bool-cases, inl, inr,
}
use native.Mathlib.Nat.{div-lt_iff_lt-mul, lt-div-mul-add}
use native.Mathlib.Decide.{dec_le}
use ai_support_agent_cli.Retry.{resolution, BackoffOptions, base_delay, jittered, calculate_backoff}

pub resolution_pos : 0 < resolution
unfolding resolution
resolution_pos = omega arith

lt_suc_le : (a b : ℕ) → a < b + 1 → a ≤ b
lt_suc_le a b h = omega arith

mul_mono : (a b u : ℕ) → a ≤ b → a * u ≤ b * u
mul_mono a b u h = grind arith

-- Between half of the delay, rounded up, and the delay itself.
rounded :
    (u delay r : ℕ)
    → 0 < u
    → r < u
    → ((delay * (u + r) + u) / (2 * u) ≤ delay) × (delay ≤ 2 * ((delay * (u + r) + u) / (2 * u)))
rounded u delay r h lt =
    let n = delay * (u + r) + u in
    let q = n / (2 * u) in
    let product : r * delay ≤ u * delay = mul_mono r u delay (omega arith) in
    let below : n < q * (2 * u) + 2 * u = lt-div-mul-add (omega arith) in
    let fits : n < (delay + 1) * (2 * u) = omega arith in
    (
      lt_suc_le _ _ ((div-lt_iff_lt-mul (omega arith)).1 fits),
      elim (dec_le delay (2 * q)) [
        | yes low ↦ low
        | no high ↦
            let more : (2 * q + 1) * u ≤ delay * u = mul_mono (2 * q + 1) delay u (omega arith) in
            absurd (omega arith)
      ],
    )

-- The delay before the jitter is the base delay doubled once for each attempt, and at most the cap.
base_delay_capped :
    (o : BackoffOptions) (most : ℕ) → o.max_delay_ms ≡ some most → base_delay o ≤ most
unfolding base_delay
base_delay_capped o most h = rw h (omega arith)

-- With a random fraction below one, the delay is between half of the uncapped or capped base delay
-- and all of it; without jitter it is the base delay; and with a cap it is never above the cap.
pub calculate_backoff_bounds :
    (o : BackoffOptions) (r : ℕ)
    → r < resolution
    → (calculate_backoff o r ≤ base_delay o)
      × (base_delay o ≤ 2 * calculate_backoff o r)
      × (o.jitter ≡ false → calculate_backoff o r ≡ base_delay o)
      × ((most : ℕ) → o.max_delay_ms ≡ some most → calculate_backoff o r ≤ most)
unfolding calculate_backoff jittered base_delay
calculate_backoff_bounds o r h =
    let (upper, lower) = rounded resolution (base_delay o) r resolution_pos h in
    elim (Bool-cases o.jitter) [
      | inl e ↦ rw e (upper, lower, λ e'. cc, λ most c. omega (arith, base_delay_capped o most c))
      | inr e ↦ rw e (omega arith, omega arith, λ e'. refl, λ most c. base_delay_capped o most c)
    ]
