-- ===== src/Guard/Validate.antt =====
-- `validateAnsibleTasks` of server-setup/ansible-task-guard.ts. The parser, js-yaml's `load`, is a
-- parameter: it gives the document or the message of the exception that it throws.
use Prim.Native.String.{◌++◌ as append}
use ai_support_agent_cli.Common.{
  ℕ, suc, Bool, true, false, not, ◌&&◌, Option, none, some, String, List, [], ◌∷◌, ◌++◌,
  if◌then◌else◌, any, is_empty, lookup, insert, member, str_eq, flat_map, filter, has, map,
}
use ai_support_agent_cli.Guard.Yaml.{
  Yaml, bool, seq, items, Dict, keys, as_string, as_object, plain_object,
}
use ai_support_agent_cli.Guard.Names.{
  Mode, forbidden_task_keys, play_format_keys, control_keys, copy_module_key,
  include_role_module_keys, set_fact_module_keys, always_secret_var_names, normalize_module_key,
  module_allowlist_for, is_reserved_var_name,
}
use ai_support_agent_cli.Guard.Scan.{contains_lookup_dict, references_secret_var}
use ai_support_agent_cli.Guard.Role.{
  TaskIndex, root, task, Violation, violation, push_if, validate_include_role,
  validate_include_role_task_vars, validate_shared_file_role_vars, property,
}

pub data Parsed : Type 0 where
  document : Yaml → Parsed
  failed : String → Parsed

-- `{ ok: true, normalizedTasks }` or `{ ok: false, violations }`
pub data ValidationResult : Type 0 where
  accepted : List Dict → ValidationResult
  rejected : List Violation → ValidationResult

-- `INCLUDE_ROLE_MODULE_KEYS.has(normalizeModuleKey(key, mode))`
abbrev pub is_include_key : Mode → String → Bool
is_include_key mode key = member (normalize_module_key key mode) include_role_module_keys

unfoldable pub is_include_role_task : Mode → Dict → Bool
unfolding normalize_module_key
is_include_role_task mode t = any (is_include_key mode) (keys t)

unfoldable pub get_module_candidate_keys : Dict → List String
get_module_candidate_keys t =
    filter (λ key. not (member key control_keys) && not (member key forbidden_task_keys)) (keys t)

-- Step 1 for one key.
unfoldable pub check_forbidden : TaskIndex → Bool → String → List Violation
check_forbidden i include key =
    push_if (not (str_eq key "vars" && include) && member key forbidden_task_keys)
      (violation i key "forbidden task key")

abbrev pub has_src : Option Yaml → Bool
has_src args = elim (as_object args) [ none ↦ false | some d ↦ has "src" d ]

-- Step 2 for one key of a module.
unfoldable pub check_module : TaskIndex → Mode → Dict → String → List Violation
check_module i mode t key =
    let normalized = normalize_module_key key mode in
    if member normalized include_role_module_keys
    then validate_include_role i key (lookup key t)
      ++ (validate_include_role_task_vars i (lookup "vars" t)
          ++ validate_shared_file_role_vars i (property "name" (lookup key t)) (lookup "vars" t))
    else if not (member normalized (module_allowlist_for mode))
    then violation i key "module not in allowlist" ∷ []
    else push_if (str_eq normalized copy_module_key && has_src (lookup key t))
        (violation i "src" "copy module must use content, not a controller-local src path")

unfoldable pub check_modules : TaskIndex → Mode → Dict → List Violation
unfolding check_module get_module_candidate_keys
check_modules i mode t =
    if is_empty (get_module_candidate_keys t)
    then violation i "root" "no recognized module key" ∷ []
    else flat_map (check_module i mode t) (get_module_candidate_keys t)

-- Step 4 for one key of a module.
unfoldable pub check_set_fact : TaskIndex → Dict → String → List Violation
check_set_fact i t key =
    if not (member key set_fact_module_keys) then [] else elim (as_object (lookup key t)) [
      | none ↦ []
      | some d ↦
          flat_map
            (λ name.
              push_if (is_reserved_var_name name)
                (violation i name "reserved or magic variable name"))
            (keys d)
    ]

abbrev pub register_reserved : Option Yaml → Bool
register_reserved value = elim (as_string value) [ none ↦ false | some s ↦ is_reserved_var_name s ]

-- The body of `parsed.forEach` for a mapping.
unfoldable pub check_task : TaskIndex → Mode → Dict → List Violation
unfolding check_forbidden check_modules check_set_fact is_include_role_task
check_task i mode t =
    flat_map (check_forbidden i (is_include_role_task mode t)) (keys t)
    ++ (check_modules i mode t
        ++ (push_if (contains_lookup_dict t)
              (violation i "root" "lookup/query plugin reference is forbidden")
            ++ (flat_map (check_set_fact i t) (get_module_candidate_keys t)
                ++ push_if (register_reserved (lookup "register" t))
                    (violation i "register" "reserved or magic variable name"))))

unfoldable pub check_raw_task : TaskIndex → Mode → Yaml → List Violation
unfolding check_task
check_raw_task i mode y = elim (plain_object y) [
  | none ↦ violation i "root" "each task must be a mapping" ∷ []
  | some t ↦ check_task i mode t
]

unfoldable pub check_tasks : ℕ → Mode → List Yaml → List Violation
unfolding check_raw_task
check_tasks n mode [] = []
check_tasks n mode (y ∷ ys) = check_raw_task (task n) mode y ++ check_tasks (suc n) mode ys

abbrev pub has_play_key : Yaml → Bool
has_play_key y = elim (plain_object y) [
  | none ↦ false
  | some t ↦ any (λ key. has key t) play_format_keys
]

abbrev pub is_true : Option Yaml → Bool
is_true (some (bool true)) = true
is_true _ = false

-- Step 5 for one task.
unfoldable pub add_no_log : List String → Dict → Dict
add_no_log names t =
    if references_secret_var t names && not (is_true (lookup "no_log" t))
    then insert "no_log" (bool true) t
    else t

-- The tasks of an accepted body: all are mappings.
abbrev pub task_dicts : List Yaml → List Dict
task_dicts [] = []
task_dicts (y ∷ ys) = elim (plain_object y) [ none ↦ task_dicts ys | some t ↦ t ∷ task_dicts ys ]

abbrev pub no_log_var_names : List String → List String
no_log_var_names secrets = secrets ++ always_secret_var_names

abbrev pub conclude : List String → List Yaml → List Violation → ValidationResult
conclude secrets ys [] = accepted (map (add_no_log (no_log_var_names secrets)) (task_dicts ys))
conclude secrets ys (v ∷ vs) = rejected (v ∷ vs)

-- The checks on a list of tasks.
unfoldable pub validate_list : Mode → List String → List Yaml → ValidationResult
unfolding check_tasks add_no_log
validate_list mode secrets ys =
    if is_empty ys
    then rejected (violation root "root" "tasks list must not be empty" ∷ [])
    else if any has_play_key ys
    then rejected (violation root "root" "top-level must be a list of tasks, not a play" ∷ [])
    else conclude secrets ys (check_tasks 0 mode ys)

unfoldable pub validate_parsed : Mode → List String → Parsed → ValidationResult
unfolding validate_list
validate_parsed mode secrets (failed message) =
    rejected (violation root "root" (append "YAML parse failed: " message) ∷ [])
validate_parsed mode secrets (document (seq ys)) = validate_list mode secrets (items ys)
validate_parsed mode secrets (document y) =
    rejected (violation root "root" "top-level must be a list of tasks, not a play" ∷ [])

unfoldable pub validate_ansible_tasks :
    (String → Parsed) → Mode → List String → String → ValidationResult
unfolding validate_parsed
validate_ansible_tasks load mode secrets body = validate_parsed mode secrets (load body)
