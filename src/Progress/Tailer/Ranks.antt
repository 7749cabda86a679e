-- ===== src/Progress/Tailer/Ranks.antt =====
-- server-setup/progress-tailer.ts: how many calls `stop` waits for.
use ai_support_agent_cli.Common.{ℕ, ◌≤◌, true, List, [], ◌∷◌, ◌≡◌, refl, ap, arith, length, take}
use ai_support_agent_cli.Progress.Tailer.{
  Flow, idle, sending, polling, Final, running, joining, draining, finished,
}
use ai_support_agent_cli.Progress.Tailer.Single.{busy}

-- How many ends of calls `stop` waits for at most.
abbrev pub rank : Final → Flow → ℕ
rank joining sending = 4
rank joining polling = 3
rank draining sending = 2
rank draining polling = 1
rank finished idle = 0
rank _ _ = 5

-- The same after a call of `onEvents` has ended, and after one of `onPoll`.
abbrev pub rank_sent : Final → Flow → ℕ
rank_sent joining sending = 3
rank_sent draining sending = 1
rank_sent g f = rank g f

abbrev pub rank_polled : Final → Flow → ℕ
rank_polled joining polling = 2
rank_polled draining polling = 0
rank_polled g f = rank g f

pub joining_rank : (f : Flow) → busy f ≡ true → rank joining f ≤ 4
joining_rank idle h = cc
joining_rank sending h = omega arith
joining_rank polling h = omega arith

pub rank_zero : (g : Final) (f : Flow) → rank g f ≤ 0 → g ≡ finished
rank_zero finished f h = refl
rank_zero running f h = absurd (omega arith)
rank_zero joining idle h = absurd (omega arith)
rank_zero joining sending h = absurd (omega arith)
rank_zero joining polling h = absurd (omega arith)
rank_zero draining idle h = absurd (omega arith)
rank_zero draining sending h = absurd (omega arith)
rank_zero draining polling h = absurd (omega arith)

-- What one end of a call takes off the bound.
pub rank_sent-le :
    (g : Final) (f : Flow) → (rank g f ≤ 4 → rank_sent g f ≤ 3) × (rank g f ≤ 2 → rank_sent g f ≤ 1)
rank_sent-le joining sending = ((λ h. omega arith), (λ h. absurd (omega arith)))
rank_sent-le draining sending = ((λ h. omega arith), (λ h. omega arith))
rank_sent-le joining idle = ((λ h. absurd (omega arith)), (λ h. absurd (omega arith)))
rank_sent-le joining polling = ((λ h. omega arith), (λ h. absurd (omega arith)))
rank_sent-le draining idle = ((λ h. absurd (omega arith)), (λ h. absurd (omega arith)))
rank_sent-le draining polling = ((λ h. omega arith), (λ h. omega arith))
rank_sent-le finished idle = ((λ h. omega arith), (λ h. omega arith))
rank_sent-le finished sending = ((λ h. absurd (omega arith)), (λ h. absurd (omega arith)))
rank_sent-le finished polling = ((λ h. absurd (omega arith)), (λ h. absurd (omega arith)))
rank_sent-le running f = ((λ h. absurd (omega arith)), (λ h. absurd (omega arith)))

pub rank_polled-le :
    (g : Final) (f : Flow)
    → (rank g f ≤ 3 → rank_polled g f ≤ 2) × (rank g f ≤ 1 → rank_polled g f ≤ 0)
rank_polled-le joining polling = ((λ h. omega arith), (λ h. absurd (omega arith)))
rank_polled-le draining polling = ((λ h. omega arith), (λ h. omega arith))
rank_polled-le joining idle = ((λ h. absurd (omega arith)), (λ h. absurd (omega arith)))
rank_polled-le joining sending = ((λ h. absurd (omega arith)), (λ h. absurd (omega arith)))
rank_polled-le draining idle = ((λ h. absurd (omega arith)), (λ h. absurd (omega arith)))
rank_polled-le draining sending = ((λ h. omega arith), (λ h. absurd (omega arith)))
rank_polled-le finished idle = ((λ h. omega arith), (λ h. omega arith))
rank_polled-le finished sending = ((λ h. absurd (omega arith)), (λ h. absurd (omega arith)))
rank_polled-le finished polling = ((λ h. absurd (omega arith)), (λ h. absurd (omega arith)))
rank_polled-le running f = ((λ h. absurd (omega arith)), (λ h. absurd (omega arith)))

pub take_all : (xs : List ℕ) → take (length xs) xs ≡ xs
take_all [] = refl
take_all (x ∷ xs) = ap (λ (t : List ℕ). x ∷ t) (take_all xs)
