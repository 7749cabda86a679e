-- ===== src/Guard/Safe.antt =====
-- What a task has to satisfy for the checks of server-setup/ansible-task-guard.ts to report nothing.
use ai_support_agent_cli.Common.{
  true, false, ◌≡◌, ◌≢◌, ◌⊎◌, Option, none, some, String, [], All, lookup, member,
}
use ai_support_agent_cli.Common.Text.{Text, codes, trim, includes, starts_with, split}
use ai_support_agent_cli.Guard.Yaml.{Yaml, Dict, keys, as_string, as_object}
use ai_support_agent_cli.Guard.Names.{
  Mode, forbidden_task_keys, copy_module_key, include_role_allowed_roles,
  include_role_allowed_param_keys, set_fact_module_keys, normalize_module_key, module_allowlist_for,
  is_reserved_var_name, shared_file_src_var,
}
use ai_support_agent_cli.Guard.Scan.{contains_lookup_dict}
use ai_support_agent_cli.Guard.Role.{tasks_from_allowed, dot_dot, property}
use ai_support_agent_cli.Guard.Validate.{
  is_include_key, is_include_role_task, get_module_candidate_keys,
}

-- A relative path with no template in it and no segment `..`.
pub record IsSafeSource (value : Text) : Type 0 where
  pub not_empty : trim value ≢ []
  pub no_expression : includes (trim value) (codes "{{") ≡ false
  pub no_statement : includes (trim value) (codes "{%") ≡ false
  pub relative : starts_with (trim value) (codes "/") ≡ false
  pub stays_below : All (λ segment. segment ≢ dot_dot) (split b'/' (trim value))

-- The arguments of `include_role`, and the variables beside it.
pub record IsSafeInclude (args : Dict) (vars : Option Yaml) : Type 0 where
  pub role : String
  pub named : as_string (lookup "name" args) ≡ some role
  pub allowed : member role include_role_allowed_roles ≡ true
  pub params : All (λ key. member key include_role_allowed_param_keys ≡ true) (keys args)
  pub tasks_from :
      (y : Yaml)
      → lookup "tasks_from" args ≡ some y
      → (s : String) × (as_string (some y) ≡ some s) × (tasks_from_allowed s ≡ true)
  pub vars_free :
      (d : Dict)
      → as_object vars ≡ some d
      → All (λ name. is_reserved_var_name name ≡ false) (keys d)
  pub source :
      role ≡ "shared_file"
      → (s : String) × (as_string (property shared_file_src_var vars) ≡ some s)
        × IsSafeSource (codes s)

pub data IsSafeModule (mode : Mode) (t : Dict) (key : String) : Type 0 where
  includes_role :
      (args : Dict)
      → is_include_key mode key ≡ true
      → as_object (lookup key t) ≡ some args
      → IsSafeInclude args (lookup "vars" t)
      → IsSafeModule mode t key
  runs_module :
      is_include_key mode key ≡ false
      → member (normalize_module_key key mode) (module_allowlist_for mode) ≡ true
      → (normalize_module_key key mode ≡ copy_module_key
          → (d : Dict) → as_object (lookup key t) ≡ some d
          → lookup "src" d ≡ none)
      → IsSafeModule mode t key

pub record IsSafeTask (mode : Mode) (t : Dict) : Type 0 where
  pub keys_allowed :
      All
        (λ key.
          (member key forbidden_task_keys ≡ false)
          ⊎ ((key ≡ "vars") × (is_include_role_task mode t ≡ true)))
        (keys t)
  pub has_module : get_module_candidate_keys t ≢ []
  pub modules : All (IsSafeModule mode t) (get_module_candidate_keys t)
  pub no_lookup : contains_lookup_dict t ≡ false
  pub facts :
      All
        (λ key.
          member key set_fact_module_keys ≡ true
          → (d : Dict) → as_object (lookup key t) ≡ some d
          → All (λ name. is_reserved_var_name name ≡ false) (keys d))
        (get_module_candidate_keys t)
  pub register_free :
      (s : String) → as_string (lookup "register" t) ≡ some s → is_reserved_var_name s ≡ false
