-- ===== src/Pending/Flush.antt =====
-- `startPendingResultFlush`: the passes that an interval starts. The module's variables are a state,
-- and a pass ends some time after the tick that started it.
use ai_support_agent_cli.Common.{
  ℕ, zero, suc, ◌≤◌, Bool, true, false, List, [], ◌∷◌, ◌≡◌, refl, if◌then◌else◌, Bool-cases, inl,
  inr, arith, leb,
}

-- What a failed pass writes to the log.
pub data Level : Type 0 where
  silent : Level
  warn : Level
  error : Level

-- `in_flight` and `failures` are `flushInFlight` and `consecutiveFlushFailures`; `running` counts the
-- passes that have started and not ended, `outcomes` has how the passes ended, the last one first.
pub record Flush : Type 0 where
  pub in_flight : Bool
  pub failures : ℕ
  pub last_log : Level
  pub running : ℕ
  pub outcomes : List Bool

abbrev pub flush_failure_alert_threshold : ℕ
flush_failure_alert_threshold = 3

abbrev pub idle : Flush
idle = record { in_flight = false; failures = 0; last_log = silent; running = 0; outcomes = [] }

-- A tick of the interval.
unfoldable pub on_tick : Flush → Flush
on_tick f = if f.in_flight then f else record f { in_flight = true; running = suc f.running }

-- The handlers of a pass that resolves or rejects.
unfoldable pub on_end : Bool → Flush → ℕ → Flush
on_end true f running = record f {
  in_flight = false;
  failures = 0;
  last_log = silent;
  running = running;
  outcomes = true ∷ f.outcomes;
}
on_end false f running = record f {
  in_flight = false;
  failures = suc f.failures;
  last_log = if leb flush_failure_alert_threshold (suc f.failures) then error else warn;
  running = running;
  outcomes = false ∷ f.outcomes;
}

-- A pass can only end when one is running.
pub data Step : Flush → Flush → Type 0 where
  ticks : {f : Flush} → Step f (on_tick f)
  ends :
      {f : Flush} {running : ℕ} (ok : Bool) → f.running ≡ suc running → Step f (on_end ok f running)

pub data Reachable : Flush → Type 0 where
  starts : Reachable idle
  steps : {f g : Flush} → Reachable f → Step f g → Reachable g

-- How many of the last passes failed in a row.
abbrev pub run_of_failures : List Bool → ℕ
run_of_failures [] = 0
run_of_failures (true ∷ os) = 0
run_of_failures (false ∷ os) = suc (run_of_failures os)

abbrev pub level_of : ℕ → Level
level_of zero = silent
level_of (suc n) = if leb flush_failure_alert_threshold (suc n) then error else warn

abbrev pub Sound : Flush → Type 0
Sound f =
    (f.running ≡ (if f.in_flight then 1 else 0))
    × (f.failures ≡ run_of_failures f.outcomes)
    × (f.last_log ≡ level_of (run_of_failures f.outcomes))

last_one :
    {running n : ℕ} (busy : Bool) → n ≡ (if busy then 1 else 0) → n ≡ suc running → running ≡ 0
last_one true r e = omega arith
last_one false r e = absurd (omega arith)

one_more : {n : ℕ} (busy : Bool) → n ≡ (if busy then 1 else 0) → busy ≡ false → suc n ≡ 1
one_more true r free = cc
one_more false r free = omega arith

Step-Sound : {f g : Flush} → Step f g → Sound f → Sound g
unfolding on_tick on_end
Step-Sound (ticks {f}) (r, c, l) = elim (Bool-cases f.in_flight) [
  | inl busy ↦ rw busy (rw busy at r, c, l)
  | inr free ↦ rw free (one_more f.in_flight r free, c, l)
]
Step-Sound (ends {f} true e) (r, c, l) = (last_one f.in_flight r e, refl, refl)
Step-Sound (ends {f} false e) (r, c, l) = rw c (last_one f.in_flight r e, refl, refl)

-- However ticks and the ends of passes follow each other, at most one pass runs at a time, the count of
-- failures is that of the last passes that failed in a row, and what the last pass logged is silent
-- after a success, a warning after a first or second failure in a row and an error from the third on.
pub Reachable-Sound : {f : Flush} → Reachable f → (f.running ≤ 1) × Sound f
Reachable-Sound starts = (omega arith, (refl, refl, refl))
Reachable-Sound (steps {f} {g} r s) =
    let sound = Step-Sound s (Reachable-Sound r).1 in (at_most_one g.in_flight (sound.0), sound)
  where
    at_most_one : {n : ℕ} (busy : Bool) → n ≡ (if busy then 1 else 0) → n ≤ 1
    at_most_one true h = omega arith
    at_most_one false h = omega arith
