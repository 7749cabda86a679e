-- ===== src/Agent/Waiting.antt =====
-- project-agent.ts: waiting in standby, and what happens when the shutdown comes then.
use ai_support_agent_cli.Common.{
  ℕ, zero, suc, Bool, true, false, some, List, [], ◌∷◌, ◌++◌, ◌≡◌, refl, length,
}
use ai_support_agent_cli.Transport.{TransportDeps}
use ai_support_agent_cli.Agent.State.{standby, Response, parked, recovering, Mark, asked, Agent}
use ai_support_agent_cli.Agent.Registering.{
  Failure, admitted, await_slot, on_unparked, on_asked_again,
}
use ai_support_agent_cli.Agent.Runs.{Event, answers, fails, elapses, step, run}

-- How a call of `register` may end that does not give a slot.
pub data Refusal : Type 0 where
  rejects : Bool → Refusal
  breaks : Failure → Refusal

abbrev pub refusal_event : Refusal → Event
refusal_event (rejects has_url) = answers (record { accepted = false; has_url = has_url })
refusal_event (breaks e) = fails e

-- One round of the wait for each refusal.
abbrev pub rounds : List Refusal → List Event
rounds [] = []
rounds (r ∷ rs) = elapses ∷ refusal_event r ∷ rounds rs

abbrev pub standby_marks : ℕ → List Mark → List Mark
standby_marks zero marks = marks
standby_marks (suc n) marks = standby_marks n (asked standby ∷ marks)

module _ (deps : TransportDeps) where
  refused :
      (a : Agent) (r : Refusal)
      → a.waiting ≡ some parked
      → a.cancelled ≡ false
      → step deps (step deps a elapses) (refusal_event r)
        ≡ record a { waiting = some parked; log = asked standby ∷ a.log }
  unfolding step on_unparked on_asked_again await_slot
  refused a (rejects has_url) at open_now = rw (at, open_now) refl
  refused a (breaks e) at open_now = rw (at, open_now) refl

  run-cons :
      (a : Agent) (e : Event) (es : List Event) → run deps a (e ∷ es) ≡ run deps (step deps a e) es
  unfolding run
  run-cons a e es = refl

  accepted_now :
      (a : Agent) (r : Response)
      → a.waiting ≡ some parked
      → a.cancelled ≡ false
      → r.accepted ≡ true
      → run deps a (elapses ∷ answers r ∷ [])
        ≡ record a { slot_held = true; waiting = some (recovering r); log = asked standby ∷ a.log }
  unfolding run step on_unparked on_asked_again admitted
  accepted_now a r at open_now yes_now = rw (at, open_now, yes_now) refl

  -- However often the server refuses a replica in standby or cannot be reached, as long as nothing else
  -- happens to it, it asks again, always in the mode that evicts nobody, and the first time that the
  -- server accepts it, it holds a slot and goes on to start its work.
  pub standby-is_admitted :
      (a : Agent) (refusals : List Refusal) (r : Response)
      → a.waiting ≡ some parked
      → a.cancelled ≡ false
      → r.accepted ≡ true
      → run deps a (rounds refusals ++ (elapses ∷ answers r ∷ [])) ≡ record a {
        slot_held = true;
        waiting = some (recovering r);
        log = standby_marks (suc (length refusals)) a.log;
      }
  standby-is_admitted a [] r at open_now yes_now = accepted_now a r at open_now yes_now
  standby-is_admitted a (refusal ∷ refusals) r at open_now yes_now =
      let again = record a { waiting = some parked; log = asked standby ∷ a.log } in
      rw
        (
          run-cons a elapses
              (refusal_event refusal ∷ (rounds refusals ++ (elapses ∷ answers r ∷ []))),
          run-cons (step deps a elapses) (refusal_event refusal)
              (rounds refusals ++ (elapses ∷ answers r ∷ [])),
          refused a refusal at open_now,
        )
        (standby-is_admitted again refusals r refl open_now yes_now)
