-- ===== src/Terminal/Tests.antt =====
-- The terminal sessions at concrete inputs.
use ai_support_agent_cli.Common.{
  ◌≡◌, ◌↔◌, refl, true, false, Option, none, some, List, [], ◌∷◌, arith, lookup, insert, remove,
  has, member, add, erase,
}
use ai_support_agent_cli.Terminal.{
  Meta, Manager, resumed, not_found, meta_mismatch, meta_matches, clear_grace_timer, resume_session,
  create_session_with_id, close_all_gracefully, on_grace_timer, Event, creates, closes, disconnects,
  expires, exits, step, run, empty,
}
use ai_support_agent_cli.Terminal.Sessions.{MayResume, Untouched, resume_session_iff}
use ai_support_agent_cli.Terminal.Grace.{run-Timed}
use ai_support_agent_cli.Terminal.Exits.{Managed, create_session-lost}

abbrev mine : Option Meta
mine = some (record { tenant_code = "acme"; project_code = "web"; user_id = "u1" })

abbrev theirs : Option Meta
theirs = some (record { tenant_code = "acme"; project_code = "web"; user_id = "u2" })

abbrev events : List Event
events = creates "s" mine ∷ disconnects ∷ []

sessions_computed :
    ((resume_session "s" mine (run empty events)).0 ≡ resumed 0)
    × ((resume_session "s" theirs (run empty events)).0 ≡ meta_mismatch)
    × ((resume_session "s" mine (run empty (creates "s" mine ∷ disconnects ∷ expires "s" ∷ []))).0
        ≡ not_found)
unfolding run step resume_session create_session_with_id close_all_gracefully on_grace_timer
    clear_grace_timer meta_matches lookup insert remove member add erase
sessions_computed = (refl, refl, refl)

resume_session_iff_example :
    (((resume_session "s" mine (run empty events)).0 ≡ resumed 0)
      ↔ MayResume (run empty events) "s" mine 0)
    × Untouched
        (run empty events)
        "s"
        (resume_session "s" mine (run empty events)).0
        (resume_session "s" mine (run empty events)).1
resume_session_iff_example = resume_session_iff "s" mine (run empty events) 0

run-Timed_example :
    let m = run empty events in
    (member "s" m.grace_timers ≡ true → has "s" m.sessions ≡ true)
    × (member "s" (close_all_gracefully m).grace_timers ≡ has "s" m.sessions)
run-Timed_example = run-Timed events "s"

abbrev one : Manager
one = run empty (creates "s" mine ∷ [])

one-Managed : Managed "s" 0 one
unfolding run step create_session_with_id clear_grace_timer lookup insert erase
one-Managed = (refl, refl, refl, omega arith)

create_session-lost_example :
    let before = run one (closes "s" ∷ creates "s" mine ∷ []) in
    let after = step before (exits 0) in
    (lookup "s" before.sessions ≡ some one.spawned)
    × (lookup "s" after.sessions ≡ none)
    × ((after.objects one.spawned).exited ≡ false)
    × ((after.objects one.spawned).killed ≡ false)
create_session-lost_example = create_session-lost "s" 0 mine one one-Managed
