-- ===== src/Guard/Routes.antt =====
-- The two execution routes of the guard: what the strict one accepts, the resident one accepts too.
use ai_support_agent_cli.Common.{
  Bool, true, false, ◌≡◌, ◌⊎◌, inl, inr, refl, String, List, [], ◌∷◌, All, All-map, any, Bool-cases,
  member, member-All, member-append_left, str_eq,
}
use ai_support_agent_cli.Guard.Yaml.{Dict, keys}
use ai_support_agent_cli.Guard.Names.{
  ecs, resident, module_allowlist, resident_extra_module_allowlist, resident_extra_short_names,
  include_role_module_keys, builtin_short_names, normalize_module_key, builtin,
}
use ai_support_agent_cli.Guard.Validate.{
  Parsed, accepted, is_include_key, is_include_role_task, validate_ansible_tasks,
}
use ai_support_agent_cli.Guard.Safe.{IsSafeModule, includes_role, runs_module, IsSafeTask}
use ai_support_agent_cli.Guard.Accept.{IsSafeBody, accepted_normalized, safe_accepted}

-- The short names of the resident route are modules that the strict route does not know.
abbrev IsNew : String → Type 0
IsNew key =
    (member key module_allowlist ≡ false)
    × (member key include_role_module_keys ≡ false)
    × (member (builtin key) include_role_module_keys ≡ false)

IsNew-names : All IsNew resident_extra_short_names
unfolding member
IsNew-names = (
  (refl, refl, refl),
  (
    (refl, refl, refl),
    (
      (refl, refl, refl),
      ((refl, refl, refl), ((refl, refl, refl), ((refl, refl, refl), ((refl, refl, refl), tt)))),
    ),
  ),
)

-- A key is either spelled out the same way on both routes, or one of the resident short names,
-- which the strict route leaves as it is.
normalize_cases :
    (key : String)
    → (normalize_module_key key resident ≡ normalize_module_key key ecs)
      ⊎ (IsNew key
          × (normalize_module_key key ecs ≡ key)
          × (normalize_module_key key resident ≡ builtin key))
unfolding normalize_module_key
normalize_cases key = elim (Bool-cases (member key builtin_short_names)) [
  | inl e ↦ inl (rw e refl)
  | inr e ↦ elim (Bool-cases (str_eq key "include_role")) [
    | inl e' ↦ inl (rw (e, e') refl)
    | inr e' ↦ elim (Bool-cases (member key resident_extra_short_names)) [
      | inl e'' ↦ inr (
        member-All IsNew resident_extra_short_names key IsNew-names e'',
        rw (e, e') refl,
        rw (e, e', e'') refl,
      )
      | inr e'' ↦ inl (rw (e, e', e'') refl)
    ]
  ]
]

include_same : (key : String) → is_include_key resident key ≡ is_include_key ecs key
include_same key = elim (normalize_cases key) [
  | inl e ↦ rw e refl
  | inr (new, e, e') ↦ rw (e, e', new.1, new.2) refl
]

any_same {ℓ} :
    {A : Type ℓ} (p q : A → Bool) → ((a : A) → p a ≡ q a) → (xs : List A) → any p xs ≡ any q xs
any_same p q h [] = refl
any_same p q h (x ∷ xs) = rw (h x, any_same p q h xs) refl

include_task_same : (t : Dict) → is_include_role_task resident t ≡ is_include_role_task ecs t
unfolding is_include_role_task
include_task_same t = any_same (is_include_key resident) (is_include_key ecs) include_same (keys t)

allowed_same :
    (key : String)
    → member (normalize_module_key key ecs) module_allowlist ≡ true
    → normalize_module_key key resident ≡ normalize_module_key key ecs
allowed_same key h = elim (normalize_cases key) [
  | inl e ↦ e
  | inr (new, e, _) ↦ cc (rw e at h, new.0)
]

module_resident : {t : Dict} (key : String) → IsSafeModule ecs t key → IsSafeModule resident t key
module_resident key (includes_role args h found safe) =
    includes_role args (rw (include_same key) h) found safe
module_resident key (runs_module h listed copies) =
    let same = allowed_same key listed in
    runs_module (rw (include_same key) h)
      (rw same (
        member-append_left (normalize_module_key key ecs) module_allowlist
          resident_extra_module_allowlist listed))
      (λ e. copies (rw same at e))

task_resident : (t : Dict) → IsSafeTask ecs t → IsSafeTask resident t
task_resident t s = record {
  keys_allowed = rw (include_task_same t) s.keys_allowed;
  has_module = s.has_module;
  modules = All-map module_resident _ s.modules;
  no_lookup = s.no_lookup;
  facts = s.facts;
  register_free = s.register_free;
}

-- What the strict route accepts, the resident route accepts too, with the same tasks returned.
pub validate-ecs-resident :
    (load : String → Parsed) (secrets : List String) (body : String) {ns : List Dict}
    → validate_ansible_tasks load ecs secrets body ≡ accepted ns
    → validate_ansible_tasks load resident secrets body ≡ accepted ns
validate-ecs-resident load secrets body {ns} h =
    let (safe, e) = accepted_normalized load ecs secrets body {ns = ns} h in
    let s : IsSafeBody load resident body = record {
      found = safe.found;
      parsed = safe.parsed;
      not_empty = safe.not_empty;
      no_play = safe.no_play;
      tasks = All-map (λ y raw. (raw.0, raw.1, task_resident (raw.0) (raw.2))) _ safe.tasks;
    } in
    rw e (safe_accepted load resident secrets body s)
