-- ===== src/Supervisor/Tests.antt =====
-- The supervisor at concrete runs.
use ai_support_agent_cli.Common.{
  ◌+◌, ◌≤◌, String, ◌≡◌, refl, true, false, ◌||◌, none, some, List, [], ◌∷◌, ◌++◌, arith, str_eq,
  if◌then◌else◌, lookup, insert, remove, member, length,
}
use ai_support_agent_cli.Supervisor.State.{Folder, exits_with, re_execs, Supervisor}
use ai_support_agent_cli.Supervisor.Starting.{
  apply_registered_agent_id, rebuild_and_restart, spawn_project, on_built, start,
}
use ai_support_agent_cli.Supervisor.Stopping.{
  numbers, stop_all, on_close, shut_down, on_stopped, closes, builds, signals, host_updates, stops,
  step, run,
}
use ai_support_agent_cli.Supervisor.Single.{present, fresh, run-Single}
use ai_support_agent_cli.Supervisor.Quiet.{run-starts_nothing}
use ai_support_agent_cli.Supervisor.Settling.{stuck, spawn_project-settles}
use ai_support_agent_cli.Supervisor.Ends.{
  last_close-abandons_builds, shut_down-starts_late, host_update-exits,
}

abbrev customized : Folder
customized = record {
  customization_hash = some "2f8c";
  built_hash = some "2f8c";
  registered_agent_id = some "agent-1";
  rebuild_needed = true;
  has_dockerfile = true;
}

abbrev plain : Folder
plain = record customized { rebuild_needed = false; has_dockerfile = false }

abbrev folders : String → Folder
folders key = if str_eq key "acme/shop" then customized else plain

abbrev two : List String
two = "acme/shop" ∷ "acme/crm" ∷ []

abbrev started : Supervisor
started = start two (fresh folders)

-- The shop has asked for a restart, and its image is being built.
abbrev rebuilding : Supervisor
rebuilding = run started (closes 0 43 ∷ [])

rebuilding_computed :
    (rebuilding.building ≡ "acme/shop" ∷ [])
    × (rebuilding.handles ≡ ("acme/crm", 1) ∷ [])
    × (rebuilding.ended ≡ none)
    × ((run rebuilding (builds "acme/shop" ∷ [])).handles ≡ ("acme/crm", 1) ∷ ("acme/shop", 2) ∷ [])
unfolding run start step on_close on_built spawn_project rebuild_and_restart
    apply_registered_agent_id lookup insert remove member
rebuilding_computed = (refl, refl, refl, refl)

-- A container asks for an update: the others are stopped, and the process starts again.
update_computed : (run started (closes 0 42 ∷ closes 1 0 ∷ stops false ∷ [])).ended ≡ some re_execs
unfolding run start step on_close on_built spawn_project rebuild_and_restart
    apply_registered_agent_id lookup insert remove member stop_all on_stopped
update_computed = refl

run-Single_example :
    present "acme/shop" (run started (closes 0 43 ∷ builds "acme/shop" ∷ closes 2 43 ∷ [])) ≤ 1
run-Single_example =
    run-Single folders two (closes 0 43 ∷ builds "acme/shop" ∷ closes 2 43 ∷ []) "acme/shop"
      (omega arith)

run-starts_nothing_example :
    (run (shut_down rebuilding) (builds "acme/shop" ∷ closes 2 43 ∷ [])).spawned
      + length (run (shut_down rebuilding) (builds "acme/shop" ∷ closes 2 43 ∷ [])).building
    ≤ (shut_down rebuilding).spawned + length (shut_down rebuilding).building
unfolding run start step on_close on_built spawn_project rebuild_and_restart
    apply_registered_agent_id lookup insert remove member shut_down stop_all
run-starts_nothing_example =
    run-starts_nothing (shut_down rebuilding) (builds "acme/shop" ∷ closes 2 43 ∷ []) refl

spawn_project-settles_example :
    (spawn_project 8 "acme/shop" (fresh folders)).overflown
    ≡ ((fresh folders).overflown || stuck (folders "acme/shop"))
spawn_project-settles_example = spawn_project-settles 7 "acme/shop" (fresh folders)

last_close-abandons_builds_example :
    ((run rebuilding (closes 1 0 ∷ builds "acme/shop" ∷ [])).ended ≡ some (exits_with 0))
    × ((run rebuilding (closes 1 0 ∷ builds "acme/shop" ∷ [])).building ≡ rebuilding.building)
unfolding run start step on_close spawn_project rebuild_and_restart apply_registered_agent_id lookup
    insert remove
last_close-abandons_builds_example =
    last_close-abandons_builds rebuilding refl "acme/crm" 1 0 (builds "acme/shop" ∷ []) refl refl
      refl refl refl

shut_down-starts_late_example :
    ((run rebuilding (signals ∷ builds "acme/shop" ∷ [])).live
      ≡ record { key = "acme/shop"; number = rebuilding.spawned } ∷ rebuilding.live)
    × ((run rebuilding (signals ∷ builds "acme/shop" ∷ [])).asked_to_stop
        ≡ numbers rebuilding.handles ++ rebuilding.asked_to_stop)
unfolding run start step on_close spawn_project rebuild_and_restart apply_registered_agent_id lookup
    insert remove member
shut_down-starts_late_example = shut_down-starts_late rebuilding refl "acme/shop" refl refl refl

abbrev alone : Supervisor
alone = start ("acme/crm" ∷ []) (fresh folders)

host_update-exits_example :
    (run alone (host_updates ∷ closes 0 0 ∷ stops false ∷ [])).ended ≡ some (exits_with 0)
unfolding run start step on_close spawn_project rebuild_and_restart apply_registered_agent_id lookup
    insert remove
host_update-exits_example =
    host_update-exits alone "acme/crm" 0 0 (stops false ∷ []) refl refl refl refl refl refl
