-- ===== src/Supervisor/State.antt =====
-- docker/docker-supervisor.ts: the state of the supervisor, the marker files of a project, and the
-- containers that run.
use ai_support_agent_cli.Common.{
  ℕ, ◌==◌, Bool, Option, none, some, List, [], ◌∷◌, String, if◌then◌else◌, str_eq,
}

-- docker-customization-hash and docker-built-hash, registered-agent-id, docker-rebuild-needed and the
-- Dockerfile, in the folder of a project.
pub record Folder : Type 0 where
  pub customization_hash : Option String
  pub built_hash : Option String
  pub registered_agent_id : Option String
  pub rebuild_needed : Bool
  pub has_dockerfile : Bool

-- A `docker run` whose `close` event has not come yet.
pub record Container : Type 0 where
  pub key : String
  pub number : ℕ

-- How the process of the supervisor ends.
pub data Ending : Type 0 where
  exits_with : ℕ → Ending
  re_execs : Ending

-- A wait of `stopAll`, and what goes on after it: the update that a container asked for, or that of the
-- host itself.
pub data AfterStop : Type 0 where
  installs : AfterStop
  host_restarts : AfterStop

-- `handles` maps a key to the number of its container. `live` are the containers that run, `building` the
-- keys of the calls of `rebuildAndRestart` that wait for an image. `awaiting` are the containers whose
-- `closedPromise` the shutdown waits for. `overflown` is set where `spawnProject` calls itself without an
-- end.
pub record Supervisor : Type 0 where
  pub handles : List (String × ℕ)
  pub updating : Bool
  pub shutting_down : Bool
  pub default_agent_id : Option String
  pub agent_ids : List (String × String)
  pub folders : String → Folder
  pub live : List Container
  pub spawned : ℕ
  pub building : List String
  pub asked_to_stop : List ℕ
  pub waiting : List AfterStop
  pub awaiting : List ℕ
  pub overflown : Bool
  pub ended : Option Ending

abbrev pub update_folder : String → Folder → (String → Folder) → String → Folder
update_folder key folder folders other = if str_eq key other then folder else folders other

abbrev pub find : ℕ → List Container → Option Container
find number [] = none
find number (c ∷ live) = if c.number == number then some c else find number live

-- The containers without the first one of this number.
abbrev pub leave : ℕ → List Container → List Container
leave number [] = []
leave number (c ∷ live) = if c.number == number then live else c ∷ leave number live

-- The keys without the first occurrence of this one.
abbrev pub built_one : String → List String → List String
built_one key [] = []
built_one key (k ∷ building) = if str_eq k key then building else k ∷ built_one key building
