-- ===== src/Guard/Accept.antt =====
-- The whole of `validateAnsibleTasks`: when its checks report nothing, and what it returns then.
use ai_support_agent_cli.Common.{
  ℕ, suc, false, ◌≡◌, ◌≢◌, ◌↔◌, inl, inr, refl, Option, none, some, String, List, [], ◌∷◌, All, any,
  Bool-cases, Option-cases, some-inj, lookup, map,
}
use ai_support_agent_cli.Guard.Yaml.{Yaml, null, seq, Items, items, Dict, keys, plain_object}
use ai_support_agent_cli.Guard.Names.{Mode, is_reserved_var_name}
use ai_support_agent_cli.Guard.Scan.{contains_lookup_dict}
use ai_support_agent_cli.Guard.Role.{TaskIndex, task, Violation}
use ai_support_agent_cli.Guard.Validate.{
  Parsed, document, failed, accepted, is_include_role_task, get_module_candidate_keys,
  register_reserved, check_task, check_raw_task, check_tasks, has_play_key, add_no_log, task_dicts,
  no_log_var_names, validate_list, validate_parsed, validate_ansible_tasks, conclude,
}
use ai_support_agent_cli.Guard.Safe.{IsSafeTask}
use ai_support_agent_cli.Guard.Silence.{push_if-eq-nil, append_iff, flat_map-eq-nil}
use ai_support_agent_cli.Guard.Soundness.{forbidden_iff, modules_iff, fact_iff}

register_iff :
    (o : Option String)
    → ((elim o [ none ↦ false | some s ↦ is_reserved_var_name s ]) ≡ false)
      ↔ ((s : String) → o ≡ some s → is_reserved_var_name s ≡ false)
register_iff none = (λ h s e. cc, λ h. refl)
register_iff (some s) = (λ h s' same. rw (← some-inj same) h, λ h. h s refl)

check_task_iff :
    (i : TaskIndex) (mode : Mode) (t : Dict) → (check_task i mode t ≡ []) ↔ IsSafeTask mode t
unfolding check_task
check_task_iff i mode t =
    let (to, from) =
      append_iff
        (flat_map-eq-nil _ _ (forbidden_iff i mode t (is_include_role_task mode t)) (keys t))
        (append_iff (modules_iff i mode t) (
          append_iff (push_if-eq-nil (contains_lookup_dict t) _) (
            append_iff (flat_map-eq-nil _ _ (fact_iff i mode t) (get_module_candidate_keys t))
              (push_if-eq-nil (register_reserved (lookup "register" t)) _)))) in
    (
      λ e.
          let parts = to e in
          record {
            keys_allowed = parts.0;
            has_module = parts.1.0.0;
            modules = parts.1.0.1;
            no_lookup = parts.1.1.0;
            facts = parts.1.1.1.0;
            register_free = (register_iff _).0 (parts.1.1.1.1);
          },
      λ s. from (
        s.keys_allowed,
        ((s.has_module, s.modules), (s.no_lookup, (s.facts, (register_iff _).1 s.register_free))),
      ),
    )

-- A mapping that is a safe task.
abbrev pub IsSafeRaw : Mode → Yaml → Type 0
IsSafeRaw mode y = (t : Dict) × (plain_object y ≡ some t) × IsSafeTask mode t

check_raw_task_iff :
    (i : TaskIndex) (mode : Mode) (y : Yaml) → (check_raw_task i mode y ≡ []) ↔ IsSafeRaw mode y
unfolding check_raw_task
check_raw_task_iff i mode y = elim (Option-cases (plain_object y)) [
  | inl e ↦ rw (e, check_raw_task) (λ h. cc, λ h. cc (h.1))
  | inr (t, e) ↦
      rw (e, check_raw_task)
        (
          λ h. (t, refl, (check_task_iff i mode t).0 h),
          λ h. (check_task_iff i mode t).1 (rw (some-inj (h.1)) h.2),
        )
]

check_tasks_iff :
    (n : ℕ) (mode : Mode) (ys : List Yaml) → (check_tasks n mode ys ≡ []) ↔ All (IsSafeRaw mode) ys
unfolding check_tasks
check_tasks_iff n mode [] = (λ h. tt, λ h. refl)
check_tasks_iff n mode (y ∷ ys) =
    append_iff (check_raw_task_iff (task n) mode y) (check_tasks_iff (suc n) mode ys)

-- The list of tasks that the parser found, none of them a play, all of them safe.
pub record IsSafeBody (load : String → Parsed) (mode : Mode) (body : String) : Type 0 where
  pub found : Items
  pub parsed : load body ≡ document (seq found)
  pub not_empty : items found ≢ []
  pub no_play : any has_play_key (items found) ≡ false
  pub tasks : All (IsSafeRaw mode) (items found)

conclude_iff :
    (secrets : List String) (ys : List Yaml) (vs : List Violation) {ns : List Dict}
    → conclude secrets ys vs ≡ accepted ns
    → (vs ≡ []) × (ns ≡ map (add_no_log (no_log_var_names secrets)) (task_dicts ys))
conclude_iff secrets ys [] h = (refl, cc)
conclude_iff secrets ys (v ∷ vs) h = (cc, cc)

validate_list_sound :
    (mode : Mode) (secrets : List String) (ys : List Yaml) {ns : List Dict}
    → validate_list mode secrets ys ≡ accepted ns
    → (ys ≢ [])
      × (any has_play_key ys ≡ false)
      × All (IsSafeRaw mode) ys
      × (ns ≡ map (add_no_log (no_log_var_names secrets)) (task_dicts ys))
unfolding validate_list
validate_list_sound mode secrets [] h = (cc, cc, tt, cc)
validate_list_sound mode secrets (y ∷ ys) {ns} h = elim (Bool-cases (any has_play_key (y ∷ ys))) [
  | inl play ↦ cc (rw play at h)
  | inr no_play ↦
      let (silent, e) =
        conclude_iff secrets (y ∷ ys) (check_tasks 0 mode (y ∷ ys)) {ns = ns} (rw no_play at h) in
      (λ e'. cc, no_play, (check_tasks_iff 0 mode (y ∷ ys)).0 silent, e)
]

safe_list_accepted :
    (mode : Mode) (secrets : List String) (ys : List Yaml)
    → ys ≢ []
    → any has_play_key ys ≡ false
    → All (IsSafeRaw mode) ys
    → validate_list mode secrets ys
      ≡ accepted (map (add_no_log (no_log_var_names secrets)) (task_dicts ys))
unfolding validate_list
safe_list_accepted mode secrets [] h no_play safe = absurd (h refl)
safe_list_accepted mode secrets (y ∷ ys) h no_play safe =
    rw (no_play, (check_tasks_iff 0 mode (y ∷ ys)).1 safe) refl

parsed_sound :
    (mode : Mode) (secrets : List String) (p : Parsed) {ns : List Dict}
    → validate_parsed mode secrets p ≡ accepted ns
    → (xs : Items) × (p ≡ document (seq xs)) × (validate_list mode secrets (items xs) ≡ accepted ns)
unfolding validate_parsed
parsed_sound mode secrets (failed message) h = cc
parsed_sound mode secrets (document (seq xs)) h = (xs, refl, h)
parsed_sound mode secrets (document null) h = cc
parsed_sound mode secrets (document y) h = cc

module _ (load : String → Parsed) (mode : Mode) (secrets : List String) (body : String) where
  -- What is returned for an accepted body.
  pub accepted_normalized :
      {ns : List Dict}
      → validate_ansible_tasks load mode secrets body ≡ accepted ns
      → (s : IsSafeBody load mode body) × (ns
          ≡ map (add_no_log (no_log_var_names secrets)) (task_dicts (items s.found)))
  unfolding validate_ansible_tasks
  accepted_normalized {ns} h =
      let (xs, parsed, checked) = parsed_sound mode secrets (load body) {ns = ns} h in
      let (not_empty, no_play, safe, e) =
        validate_list_sound mode secrets (items xs) {ns = ns} checked in
      (
        record {
          found = xs;
          parsed = parsed;
          not_empty = not_empty;
          no_play = no_play;
          tasks = safe;
        },
        e,
      )

  pub safe_accepted :
      (s : IsSafeBody load mode body)
      → validate_ansible_tasks load mode secrets body
        ≡ accepted (map (add_no_log (no_log_var_names secrets)) (task_dicts (items s.found)))
  unfolding validate_ansible_tasks validate_parsed
  safe_accepted s =
      rw (s.parsed, validate_parsed)
        (safe_list_accepted mode secrets (items s.found) s.not_empty s.no_play s.tasks)
