-- ===== src/Guard/Permitted.antt =====
-- What a list of tasks that server-setup/ansible-task-guard.ts accepts has to satisfy, by the meaning of the
-- policy and its lists of names, without the functions that check it.
use mathlib.Core.List.{Memᴰ}
use ai_support_agent_cli.Common.{false, ◌≡◌, ◌≢◌, ◌⊎◌, Option, none, some, String, [], lookup}
use ai_support_agent_cli.Common.Text.{codes}
use ai_support_agent_cli.Guard.Yaml.{
  Yaml, seq, Items, items, Dict, keys, as_string, as_object, plain_object,
}
use ai_support_agent_cli.Guard.Names.{
  Mode, forbidden_task_keys, play_format_keys, include_role_allowed_roles,
  include_role_allowed_param_keys, set_fact_module_keys,
}
use ai_support_agent_cli.Guard.Validate.{Parsed, document}
use ai_support_agent_cli.Guard.Lookup.{PluginCall, Holds}
use ai_support_agent_cli.Guard.Safe.{IsSafeSource}
use ai_support_agent_cli.Guard.Policy.{
  IsReserved, IsModuleKey, IsIncludeRole, FullName, IsAllowedModule, IsFileName,
}

-- No key of the object is a reserved name.
abbrev pub IsFree : Option Dict → Type 0
IsFree o = (d : Dict) → o ≡ some d → (name : String) → Memᴰ name (keys d) → ¬ IsReserved name

-- The arguments of `include_role`, and the variables beside it.
pub record IsPermittedInclude (args : Dict) (vars : Option Yaml) : Type 0 where
  pub role : String
  pub named : as_string (lookup "name" args) ≡ some role
  pub allowed : Memᴰ role include_role_allowed_roles
  pub params : (key : String) → Memᴰ key (keys args) → Memᴰ key include_role_allowed_param_keys
  pub tasks_from :
      (y : Yaml)
      → lookup "tasks_from" args ≡ some y
      → (s : String) × (as_string (some y) ≡ some s) × IsFileName s
  pub vars_free : IsFree (as_object vars)
  pub source :
      role ≡ "shared_file"
      → (d : Dict) × (s : String) × (as_object vars ≡ some d)
        × (as_string (lookup "shared_file_src" d) ≡ some s)
        × IsSafeSource (codes s)

pub data IsPermittedModule (mode : Mode) (t : Dict) (key : String) : Type 0 where
  includes_role :
      (args : Dict)
      → IsIncludeRole key
      → as_object (lookup key t) ≡ some args
      → IsPermittedInclude args (lookup "vars" t)
      → IsPermittedModule mode t key
  runs_module :
      (name : String)
      → ¬ IsIncludeRole key
      → FullName mode key name
      → IsAllowedModule mode name
      → (name ≡ "ansible.builtin.copy"
          → (d : Dict) → as_object (lookup key t) ≡ some d
          → lookup "src" d ≡ none)
      → IsPermittedModule mode t key

pub record IsPermittedTask (mode : Mode) (t : Dict) : Type 0 where
  pub keys_allowed :
      (key : String)
      → Memᴰ key (keys t)
      → (¬ Memᴰ key forbidden_task_keys)
        ⊎ ((key ≡ "vars") × ((k : String) × Memᴰ k (keys t) × IsIncludeRole k))
  pub has_module : (key : String) × IsModuleKey t key
  pub modules : (key : String) → IsModuleKey t key → IsPermittedModule mode t key
  pub no_lookup :
      (key s : String) (y : Yaml) → Memᴰ (key, y) t → Holds s y → ¬ PluginCall false (codes s)
  pub facts :
      (key : String)
      → IsModuleKey t key
      → Memᴰ key set_fact_module_keys
      → IsFree (as_object (lookup key t))
  pub register_free : (s : String) → as_string (lookup "register" t) ≡ some s → ¬ IsReserved s

-- The parser finds a list of tasks that is not empty and holds no play, and every task is permitted.
pub record IsPermittedBody (load : String → Parsed) (mode : Mode) (body : String) : Type 0 where
  pub found : Items
  pub parsed : load body ≡ document (seq found)
  pub not_empty : items found ≢ []
  pub no_play :
      (y : Yaml) (t : Dict) (key : String)
      → Memᴰ y (items found)
      → plain_object y ≡ some t
      → Memᴰ key play_format_keys
      → lookup key t ≡ none
  pub tasks :
      (y : Yaml)
      → Memᴰ y (items found)
      → (t : Dict) × (plain_object y ≡ some t) × IsPermittedTask mode t
