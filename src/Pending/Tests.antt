-- ===== src/Pending/Tests.antt =====
-- The folder of pending results at concrete inputs: a fresh result, a young one, a stale one, one of an
-- older version and a corrupted file.
use ai_support_agent_cli.Common.{
  ℕ, ◌≡◌, ◌≤◌, refl, true, false, Option, none, some, [], ◌∷◌, String, All, lookup, remove,
}
use ai_support_agent_cli.Retry.{no_response, status}
use ai_support_agent_cli.Pending.{
  success, PendingResult, saved, corrupted, Store, Server, submission_of, settles, submit_each,
  load_pending_results, submit_pending_results, is_non_auth_client_error, remove_pending_result,
}
use ai_support_agent_cli.Pending.Laws.{WellFormed}
use ai_support_agent_cli.Pending.Submitting.{
  fate, lookup-submit_pending_results, Rightful, submit_pending_results-Rightful,
}
use ai_support_agent_cli.Pending.Flush.{
  idle, on_tick, on_end, Reachable, starts, steps, ticks, ends, Sound, Reachable-Sound,
}

abbrev result_of : String → ℕ → Option ℕ → PendingResult
result_of id at generation = record {
  command_id = id;
  agent_id = "agent-1";
  result = success "{}";
  api_url = "https://api";
  token = "t";
  tenant_code = "acme";
  saved_at = some at;
  instance_id = some "pod-1";
  assignment_generation = generation;
}

abbrev folder : Store
folder =
    ("cmd-1", saved (result_of "cmd-1" 20000000 (some 3)))
    ∷ ("cmd-2", saved (result_of "cmd-2" 20090000 (some 1)))
    ∷ ("cmd-3", saved (result_of "cmd-3" 9000000 (some 1)))
    ∷ ("cmd-4", saved (result_of "cmd-4" 20000000 none))
    ∷ ("cmd-5", corrupted)
    ∷ []

folder-WellFormed : WellFormed folder
unfolding lookup
folder-WellFormed =
    ((refl, (refl, (refl, (refl, (refl, tt))))), (refl, (refl, (refl, (refl, (tt, tt))))))

-- The server takes what carries a generation and is away for the rest.
abbrev server : Server
server s = elim s.generation_header [ none ↦ some no_response | some generation ↦ none ]

folder_computed : submit_pending_results server 90000 20100000 folder ≡ (
  submission_of (result_of "cmd-1" 20000000 (some 3))
      ∷ submission_of (result_of "cmd-4" 20000000 none)
      ∷ [],
  ("cmd-2", saved (result_of "cmd-2" 20090000 (some 1)))
      ∷ ("cmd-4", saved (result_of "cmd-4" 20000000 none))
      ∷ [],
)
unfolding submit_pending_results load_pending_results submit_each submission_of settles
    remove_pending_result remove is_non_auth_client_error
folder_computed = refl

errors_computed :
    (settles (some (status 404)) ≡ true)
    × (settles (some (status 401)) ≡ false)
    × (settles (some (status 503)) ≡ false)
    × (settles (some no_response) ≡ false)
unfolding settles is_non_auth_client_error
errors_computed = (refl, refl, refl, refl)

lookup-submit_pending_results_example :
    lookup "cmd-4" (submit_pending_results server 90000 20100000 folder).1
    ≡ fate server 90000 20100000 (lookup "cmd-4" folder)
lookup-submit_pending_results_example =
    lookup-submit_pending_results server 90000 20100000 folder "cmd-4" folder-WellFormed

submit_pending_results-Rightful_example :
    All (Rightful 90000 20100000 folder) (submit_pending_results server 90000 20100000 folder).0
submit_pending_results-Rightful_example =
    submit_pending_results-Rightful server 90000 20100000 folder folder-WellFormed

running_once : (on_tick (on_tick idle)).running ≡ 1
unfolding on_tick
running_once = refl

failed_once : Reachable (on_end false (on_tick (on_tick idle)) 0)
failed_once = steps (steps (steps starts ticks) ticks) (ends false running_once)

Reachable-Sound_example :
    ((on_end false (on_tick (on_tick idle)) 0).running ≤ 1)
    × Sound (on_end false (on_tick (on_tick idle)) 0)
Reachable-Sound_example = Reachable-Sound failed_once
