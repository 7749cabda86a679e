-- ===== src/Supervisor/Starting.antt =====
-- docker/docker-supervisor.ts: `applyRegisteredAgentId`, `spawnProject`, `rebuildAndRestart` and `start`.
-- The arguments of `docker run`, the log of a container and the mounts are left out.
use ai_support_agent_cli.Common.{
  ℕ, zero, suc, Bool, true, false, not, ◌&&◌, ◌||◌, Option, none, some, List, [], ◌∷◌, String,
  if◌then◌else◌, str_eq, lookup, insert,
}
use ai_support_agent_cli.Supervisor.State.{Folder, Supervisor, update_folder, built_one}

abbrev pub same_id : Option String → String → Bool
same_id none id = false
same_id (some previous) id = str_eq previous id

-- `getProjectAgentId`
abbrev pub project_agent_id : String → Supervisor → Option String
project_agent_id key s = elim (lookup key s.agent_ids) [
  | none ↦ s.default_agent_id
  | some id ↦ some id
]

abbrev pub use_id : String → Option String → Supervisor → Supervisor
use_id key none s = s
use_id key (some id) s =
    if str_eq id "" || same_id (project_agent_id key s) id
    then s
    else record s { agent_ids = insert key id s.agent_ids }

-- The container writes the id it got from the server.
unfoldable pub apply_registered_agent_id : String → Supervisor → Supervisor
apply_registered_agent_id key s = use_id key (s.folders key).registered_agent_id s

-- Both hashes are there and differ.
abbrev pub hash_mismatch : Folder → Bool
hash_mismatch folder = elim folder.customization_hash [
  | none ↦ false
  | some wanted ↦ elim folder.built_hash [ none ↦ false | some built ↦ not (str_eq wanted built) ]
]

-- `spawn('docker', ['run', ...])`
abbrev pub launch : String → Supervisor → Supervisor
launch key s = record s {
  handles = insert key s.spawned s.handles;
  live = record { key = key; number = s.spawned } ∷ s.live;
  spawned = suc s.spawned;
}

-- The marker is removed, and the id is read before the build.
abbrev pub begin_build : String → Supervisor → Supervisor
begin_build key s = apply_registered_agent_id key (record s {
  folders = update_folder key (record (s.folders key) { rebuild_needed = false }) s.folders;
})

abbrev pub wait_for_image : String → Supervisor → Supervisor
wait_for_image key s = record s { building = key ∷ s.building }

-- `rebuildAndRestart`, up to its wait for the image where it builds one. `next` is `spawnProject`.
unfoldable pub rebuild_and_restart :
    (String → Supervisor → Supervisor) → Bool → String → Supervisor → Supervisor
unfolding apply_registered_agent_id
rebuild_and_restart next force_if_dockerfile_exists key s =
    let folder = s.folders key in
    let should_build =
      folder.rebuild_needed || force_if_dockerfile_exists && folder.has_dockerfile in
    let begun = begin_build key s in
    let at_once = next key s in
    let at_last = next key begun in
    if not should_build
    then at_once
    else if folder.has_dockerfile
    then wait_for_image key begun
    else at_last

-- `spawnProject`; `rounds` bounds how often it calls itself through `rebuildAndRestart`.
unfoldable pub spawn_project : ℕ → String → Supervisor → Supervisor
unfolding rebuild_and_restart
spawn_project zero key s = record s { overflown = true }
spawn_project (suc rounds) key s =
    let rebuilt = rebuild_and_restart (spawn_project rounds) true key s in
    if hash_mismatch (s.folders key) then rebuilt else launch key (apply_registered_agent_id key s)

-- The rounds that a call is given, see Settling.antt.
abbrev pub enough_rounds : ℕ
enough_rounds = 2

abbrev pub spawn : String → Supervisor → Supervisor
spawn = spawn_project enough_rounds

-- The built hash becomes that of the customization, if there is one.
abbrev pub copy_hash : Folder → Folder
copy_hash folder = elim folder.customization_hash [
  | none ↦ folder
  | some wanted ↦ record folder { built_hash = some wanted }
]

-- `buildProjectImage` has ended, with an image or with an error: both ways copy the hash.
unfoldable pub on_built : String → Supervisor → Supervisor
unfolding spawn_project
on_built key s = spawn key (record s {
  building = built_one key s.building;
  folders = update_folder key (copy_hash (s.folders key)) s.folders;
})

unfoldable pub start : List String → Supervisor → Supervisor
unfolding spawn_project
start [] s = s
start (key ∷ projects) s = start projects (spawn key s)
