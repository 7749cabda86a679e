-- ===== src/Agent/Drained.antt =====
-- project-agent.ts, `waitForDrain`: the cases of its test.
use ai_support_agent_cli.Common.{suc, Bool, true, false, ◌≡◌, if_elim, is_empty}
use ai_support_agent_cli.Agent.State.{draining, releasing, Agent}
use ai_support_agent_cli.Agent.Leaving.{remaining, finish_shutdown, drain}

-- What `drain` leaves alone.
pub drain_elim {ℓ} :
    (P : Agent → Type ℓ) (expired : Bool) (a : Agent)
    → (is_empty (remaining a) ≡ true
        → a.slot_held ≡ true
        → P (record a { shutdown = releasing; releases = suc a.releases }))
    → P (finish_shutdown a)
    → (is_empty (remaining a) ≡ false → P (record a { shutdown = draining }))
    → P (drain expired a)
unfolding drain
drain_elim P expired a lets finishes goes =
    if_elim P (is_empty (remaining a)) _ _
      (λ none_left.
        if_elim P a.slot_held (record a { shutdown = releasing; releases = suc a.releases })
          (finish_shutdown a) (λ held. lets none_left held) (λ _. finishes))
      (λ some_left.
        if_elim P expired (finish_shutdown a) (record a { shutdown = draining }) (λ _. finishes)
          (λ _. goes some_left))
