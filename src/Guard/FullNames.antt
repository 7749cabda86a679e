-- ===== src/Guard/FullNames.antt =====
-- The normalisation of module keys in server-setup/ansible-task-guard.ts, against what the keys mean.
use mathlib.Core.List.{Memᴰ}
use mathlib.Core.List.Memᴰ
use mathlib.Core.Path.{subst}
use mathlib.Core.Bool.{false≢true}
use ai_support_agent_cli.Common.{
  Bool, true, false, not, ◌&&◌, ◌||◌, ◌==◌, ◌≡◌, ◌⊎◌, ◌↔◌, inl, inr, refl, sym, ap, ◌∙◌, String,
  List, [], ◌∷◌, arith, All, any, all, any_sound, any_complete, and-eq-true, Bool-cases, is_empty,
  member, str_eq, eq_iff, str_eq-ne,
}
use ai_support_agent_cli.Common.Text.{Text, codes, is_alnum}
use ai_support_agent_cli.Guard.Yaml.{Dict, keys}
use ai_support_agent_cli.Guard.Names.{
  Mode, resident, ecs, is_resident, builtin_short_names, module_allowlist,
  resident_extra_module_allowlist, resident_extra_short_names, include_role_module_keys, builtin,
  normalize_module_key, module_allowlist_for,
}
use ai_support_agent_cli.Guard.Policy.{
  IsIncludeRole, FullName, short, resident_short, written, IsAllowedModule, IsFileName, member_iff,
  member_not_iff,
}
use ai_support_agent_cli.Guard.Role.{tasks_from_allowed}
use ai_support_agent_cli.Guard.Silence.{is_empty-false}
use ai_support_agent_cli.Guard.Validate.{is_include_key, is_include_role_task}

-- No short name of a core module is that of `include_role`.
not_include :
    (key : String)
    → Memᴰ key builtin_short_names
    → member (builtin key) include_role_module_keys ≡ false
not_include key m = elim (Bool-cases (member (builtin key) include_role_module_keys)) [
  | inl h ↦ absurd (
      false≢true (
        sym none_of_them
        ∙ any_complete (λ k. member (builtin k) include_role_module_keys) builtin_short_names key m
            h))
  | inr h ↦ h
]
  where
    none_of_them :
        any (λ k. member (builtin k) include_role_module_keys) builtin_short_names ≡ false
    none_of_them = unfold member in refl

resident_not_include :
    (key : String)
    → Memᴰ key resident_extra_short_names
    → member (builtin key) include_role_module_keys ≡ false
resident_not_include key m = elim (Bool-cases (member (builtin key) include_role_module_keys)) [
  | inl h ↦ absurd (
      false≢true (
        sym none_of_them
        ∙ any_complete (λ k. member (builtin k) include_role_module_keys) resident_extra_short_names
            key m h))
  | inr h ↦ h
]
  where
    none_of_them :
        any (λ k. member (builtin k) include_role_module_keys) resident_extra_short_names ≡ false
    none_of_them = unfold member in refl

-- The four cases of `normalizeModuleKey`.
module _ (mode : Mode) (key : String) where
  normal_short : member key builtin_short_names ≡ true → normalize_module_key key mode ≡ builtin key
  unfolding normalize_module_key
  normal_short e = rw e refl

  normal_include :
      member key builtin_short_names ≡ false
      → str_eq key "include_role" ≡ true
      → normalize_module_key key mode ≡ "ansible.builtin.include_role"
  unfolding normalize_module_key
  normal_include e f = rw (e, f) refl

  normal_extra :
      member key builtin_short_names ≡ false
      → str_eq key "include_role" ≡ false
      → (is_resident mode && member key resident_extra_short_names) ≡ true
      → normalize_module_key key mode ≡ builtin key
  unfolding normalize_module_key
  normal_extra e f g = rw (e, f, g) refl

  normal_written :
      member key builtin_short_names ≡ false
      → str_eq key "include_role" ≡ false
      → (is_resident mode && member key resident_extra_short_names) ≡ false
      → normalize_module_key key mode ≡ key
  unfolding normalize_module_key
  normal_written e f g = rw (e, f, g) refl

and_resident_iff :
    (mode : Mode) (s : String) (xs : List String)
    → ((is_resident mode && member s xs) ≡ true) ↔ ((mode ≡ resident) × Memᴰ s xs)
and_resident_iff resident s xs = (λ h. (refl, (member_iff s xs).0 h), λ h. (member_iff s xs).1 h.1)
and_resident_iff ecs s xs = (λ h. absurd (false≢true h), λ h. absurd (no_mode h.0))
  where
    no_mode : ecs ≡ resident → ⊥
    no_mode e = cc

include_key_sound :
    (mode : Mode) (key : String)
    → member (normalize_module_key key mode) include_role_module_keys ≡ true
    → IsIncludeRole key
include_key_sound mode key h = elim (Bool-cases (member key builtin_short_names)) [
  | inl e ↦ absurd (
      false≢true
        (sym (not_include key ((member_iff _ _).0 e)) ∙ (rw (normal_short mode key e) at h)))
  | inr e ↦ elim (Bool-cases (str_eq key "include_role")) [
    | inl f ↦ inl ((eq_iff key "include_role").0 f)
    | inr f ↦ elim (Bool-cases (is_resident mode && member key resident_extra_short_names)) [
      | inl g ↦ absurd (
          false≢true (
            sym (resident_not_include key ((and_resident_iff _ _ _).0 g).1)
            ∙ (rw (normal_extra mode key e f g) at h)))
      | inr g ↦ listed ((member_iff _ _).0 (rw (normal_written mode key e f g) at h))
    ]
  ]
]
  where
    listed : Memᴰ key include_role_module_keys → IsIncludeRole key
    listed (Memᴰ.head e) = inl e
    listed (Memᴰ.tail (Memᴰ.head e)) = inr e
    listed (Memᴰ.tail (Memᴰ.tail m)) = elim m [ ]

include_key_complete :
    (mode : Mode) (key : String)
    → IsIncludeRole key
    → member (normalize_module_key key mode) include_role_module_keys ≡ true
unfolding normalize_module_key member
include_key_complete resident key (inl e) = rw e refl
include_key_complete resident key (inr e) = rw e refl
include_key_complete ecs key (inl e) = rw e refl
include_key_complete ecs key (inr e) = rw e refl

-- The keys that `INCLUDE_ROLE_MODULE_KEYS` finds after the normalisation are the two names of `include_role`.
pub IsIncludeRole-iff :
    (mode : Mode) (key : String) → (is_include_key mode key ≡ true) ↔ IsIncludeRole key
IsIncludeRole-iff mode key = (include_key_sound mode key, include_key_complete mode key)

pub include_task_iff :
    (mode : Mode) (t : Dict)
    → (is_include_role_task mode t ≡ true)
      ↔ ((key : String) × Memᴰ key (keys t) × IsIncludeRole key)
unfolding is_include_role_task
include_task_iff mode t = (
  λ h.
      let (key, m, e) = any_sound (is_include_key mode) (keys t) h in
      (key, m, (IsIncludeRole-iff mode key).0 e),
  λ h.
      let (key, m, e) = h in
      any_complete (is_include_key mode) (keys t) key m ((IsIncludeRole-iff mode key).1 e),
)

FullName-complete :
    (mode : Mode) (key name : String)
    → str_eq key "include_role" ≡ false
    → FullName mode key name
    → normalize_module_key key mode ≡ name
FullName-complete mode key _ f (short m) = normal_short mode key ((member_iff _ _).1 m)
FullName-complete mode key _ f (resident_short r m) =
    elim (Bool-cases (member key builtin_short_names)) [
      | inl e ↦ normal_short mode key e
      | inr e ↦ normal_extra mode key e f ((and_resident_iff _ _ _).1 (r, m))
    ]
FullName-complete mode key _ f (written no_short no_extra) =
    normal_written mode key ((member_not_iff _ _).1 no_short) f
      (not_true _ (λ g. no_extra ((and_resident_iff _ _ _).0 g)))
  where
    not_true : (b : Bool) → ¬ (b ≡ true) → b ≡ false
    not_true b h = ground arith

FullName-sound :
    (mode : Mode) (key : String)
    → str_eq key "include_role" ≡ false
    → FullName mode key (normalize_module_key key mode)
FullName-sound mode key f = elim (Bool-cases (member key builtin_short_names)) [
  | inl e ↦ subst (FullName mode key) (sym (normal_short mode key e)) (short ((member_iff _ _).0 e))
  | inr e ↦ elim (Bool-cases (is_resident mode && member key resident_extra_short_names)) [
    | inl g ↦
        let (r, m) = (and_resident_iff _ _ _).0 g in
        subst (FullName mode key) (sym (normal_extra mode key e f g)) (resident_short r m)
    | inr g ↦ subst (FullName mode key) (sym (normal_written mode key e f g)) (
        written ((member_not_iff _ _).0 e)
          (λ h. absurd (false≢true (sym g ∙ (and_resident_iff _ _ _).1 h))))
  ]
]

-- A key that is no `include_role` has one full name, the one that `normalizeModuleKey` gives.
pub FullName-iff :
    (mode : Mode) (key name : String)
    → ¬ IsIncludeRole key
    → FullName mode key name ↔ (normalize_module_key key mode ≡ name)
FullName-iff mode key name plain =
    let f = str_eq-ne key "include_role" (λ e. plain (inl e)) in
    (
      FullName-complete mode key name f,
      λ e. subst (FullName mode key) e (FullName-sound mode key f),
    )

pub IsAllowedModule-iff :
    (mode : Mode) (name : String)
    → (member name (module_allowlist_for mode) ≡ true) ↔ IsAllowedModule mode name
IsAllowedModule-iff resident name = (
  λ h. elim (Memᴰ.append_cases module_allowlist ((member_iff name _).0 h)) [
    | inl m ↦ inl m
    | inr m ↦ inr (refl, m)
  ],
  λ h. (member_iff name _).1 (elim h [
    | inl m ↦ Memᴰ.append_left resident_extra_module_allowlist m
    | inr m ↦ Memᴰ.append_right module_allowlist (m.1)
  ]),
)
IsAllowedModule-iff ecs name = (
  λ h. inl ((member_iff name _).0 h),
  λ h. elim h [ inl m ↦ (member_iff name _).1 m | inr m ↦ absurd (no_mode m.0) ],
)
  where
    no_mode : ecs ≡ resident → ⊥
    no_mode e = cc

plain_iff :
    (t : Text)
    → (all (λ c. is_alnum c || c == b'_' || c == b'-') t ≡ true)
      ↔ All (λ c. (is_alnum c ≡ true) ⊎ (c ≡ b'_') ⊎ (c ≡ b'-')) t
plain_iff [] = (λ h. tt, λ h. refl)
plain_iff (c ∷ t) =
    let (to, from) = plain_iff t in
    (λ h. (ground arith, to (ground arith)), λ h. ground (arith, h.0, from (h.1)))

pub IsFileName-iff : (s : String) → (tasks_from_allowed s ≡ true) ↔ IsFileName s
unfolding tasks_from_allowed
IsFileName-iff s =
    let (to, from) = plain_iff (codes s) in
    (
      λ h.
          let (some_char, plain) = and-eq-true h in
          record { not_empty = λ e. absurd (full e some_char); plain = to plain },
      λ f. both (is_empty-false (codes s) f.not_empty) (from f.plain),
    )
  where
    full : codes s ≡ [] → not (is_empty (codes s)) ≡ true → ⊥
    full e h = false≢true (ap (λ (t : Text). not (is_empty t)) (sym e) ∙ h)

    both : {a b : Bool} → a ≡ false → b ≡ true → (not a && b) ≡ true
    both h k = ground arith
