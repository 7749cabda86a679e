-- ===== src/Guard/Role.antt =====
-- The validators of `include_role` tasks in server-setup/ansible-task-guard.ts.
use ai_support_agent_cli.Common.{
  ℕ, Bool, true, false, not, ◌&&◌, ◌||◌, Option, none, some, String, List, [], ◌∷◌, ◌++◌, ◌==◌,
  if◌then◌else◌, any, all, is_empty, lookup, member, str_eq, flat_map,
}
use ai_support_agent_cli.Common.Text.{
  Text, codes, is_alnum, trim, includes, starts_with, split, text_eq,
}
use ai_support_agent_cli.Guard.Yaml.{Yaml, Dict, keys, as_string, as_object}
use ai_support_agent_cli.Guard.Names.{
  include_role_allowed_roles, include_role_allowed_param_keys, is_reserved_var_name,
  shared_file_src_var, shared_file_role,
}

-- `taskIndex`, where `root` stands for -1.
pub data TaskIndex : Type 0 where
  root : TaskIndex
  task : ℕ → TaskIndex

pub record Violation : Type 0 where
  pub task_index : TaskIndex
  pub key : String
  pub reason : String

abbrev pub violation : TaskIndex → String → String → Violation
violation i key reason = record { task_index = i; key = key; reason = reason }

-- `if (bad) violations.push(v)`
abbrev pub push_if : Bool → Violation → List Violation
push_if true v = v ∷ []
push_if false v = []

-- `TASKS_FROM_ALLOWED_PATTERN.test`
unfoldable pub tasks_from_allowed : String → Bool
tasks_from_allowed s =
    not (is_empty (codes s)) && all (λ c. is_alnum c || c == b'_' || c == b'-') (codes s)

abbrev pub role_allowed : Option String → Bool
role_allowed none = false
role_allowed (some name) = member name include_role_allowed_roles

-- `tasksFrom !== undefined && (typeof tasksFrom !== 'string' || !pattern.test(tasksFrom))`
abbrev pub tasks_from_bad : Option Yaml → Bool
tasks_from_bad none = false
tasks_from_bad (some y) = elim (as_string (some y)) [
  | none ↦ true
  | some s ↦ not (tasks_from_allowed s)
]

unfoldable pub role_args : TaskIndex → Dict → List Violation
role_args i args =
    push_if (not (role_allowed (as_string (lookup "name" args))))
      (violation i "name" "include_role name is not one of the allowed bundled roles")
    ++ (flat_map
          (λ param.
            push_if (not (member param include_role_allowed_param_keys))
              (violation i param "include_role param key is not allowed"))
          (keys args)
        ++ push_if (tasks_from_bad (lookup "tasks_from" args)) (
            violation i "tasks_from"
              "include_role tasks_from must match [A-Za-z0-9_-]+ (no path separators)"))

unfoldable pub validate_include_role : TaskIndex → String → Option Yaml → List Violation
unfolding role_args
validate_include_role i module_key args = elim (as_object args) [
  | none ↦ violation i module_key "include_role args must be a mapping" ∷ []
  | some d ↦ role_args i d
]

unfoldable pub reserved_vars : TaskIndex → List String → List Violation
reserved_vars i names =
    flat_map
      (λ name.
        push_if (is_reserved_var_name name)
          (violation i name "reserved or magic variable name in include_role vars"))
      names

unfoldable pub validate_include_role_task_vars : TaskIndex → Option Yaml → List Violation
unfolding reserved_vars
validate_include_role_task_vars i vars = elim (as_object vars) [
  | none ↦ []
  | some d ↦ reserved_vars i (keys d)
]

abbrev pub dot_dot : Text
dot_dot = codes ".."

-- `isValidSharedFileSrc` of a string.
unfoldable pub is_valid_src : Text → Bool
is_valid_src value =
    let trimmed = trim value in
    not (is_empty trimmed)
    && not (includes trimmed (codes "{{") || includes trimmed (codes "{%"))
    && not (starts_with trimmed (codes "/"))
    && not (any (λ segment. text_eq segment dot_dot) (split b'/' trimmed))

abbrev pub is_valid_shared_file_src : Option Yaml → Bool
is_valid_shared_file_src value = elim (as_string value) [
  | none ↦ false
  | some s ↦ is_valid_src (codes s)
]

-- The property `key` of a value that may be no object.
abbrev pub property : String → Option Yaml → Option Yaml
property key value = elim (as_object value) [ none ↦ none | some d ↦ lookup key d ]

abbrev pub is_shared_file_role : Option Yaml → Bool
is_shared_file_role name = elim (as_string name) [
  | none ↦ false
  | some s ↦ str_eq s shared_file_role
]

unfoldable pub validate_shared_file_role_vars :
    TaskIndex → Option Yaml → Option Yaml → List Violation
unfolding is_valid_src
validate_shared_file_role_vars i role_name vars =
    if not (is_shared_file_role role_name)
    then []
    else push_if (not (is_valid_shared_file_src (property shared_file_src_var vars))) (
        violation i shared_file_src_var
          "shared_file_src must be a literal relative path without \"..\" (no Jinja templating)")
