-- ===== src/Guard/Soundness.antt =====
-- `validateAnsibleTasks` accepts a list of tasks exactly when each of them is safe.
use ai_support_agent_cli.Common.{
  Bool, true, false, ◌&&◌, ◌≡◌, ◌≢◌, ◌↔◌, ◌⊎◌, inl, inr, refl, Option, none, some, String, List, [],
  ◌∷◌, arith, All, flat_map, Bool-cases, Option-cases, some-inj, if◌then◌else◌, lookup, member,
  eq_iff, str_eq, is_empty, has,
}
use ai_support_agent_cli.Guard.Yaml.{Yaml, Dict, keys, as_object}
use ai_support_agent_cli.Guard.Names.{
  Mode, forbidden_task_keys, copy_module_key, set_fact_module_keys, normalize_module_key,
  module_allowlist_for, is_reserved_var_name,
}
use ai_support_agent_cli.Guard.Role.{TaskIndex, Violation, push_if, validate_include_role}
use ai_support_agent_cli.Guard.Validate.{
  is_include_key, get_module_candidate_keys, check_forbidden, has_src, check_module, check_modules,
  check_set_fact,
}
use ai_support_agent_cli.Guard.Role.{violation}
use ai_support_agent_cli.Guard.Safe.{IsSafeModule, includes_role, runs_module}
use ai_support_agent_cli.Guard.Silence.{
  push_if-eq-nil, append-eq-nil_iff, flat_map-eq-nil, object_iff, include_iff,
}

has_src_iff :
    (o : Option Dict)
    → ((elim o [ none ↦ false | some d ↦ has "src" d ]) ≡ false)
      ↔ ((d : Dict) → o ≡ some d → lookup "src" d ≡ none)
has_src_iff none = (λ h d e. cc, λ h. refl)
has_src_iff (some d) = elim (Option-cases (lookup "src" d)) [
  | inl e ↦ (λ h d' same. rw (← some-inj same) e, λ h. rw e)
  | inr (y, e) ↦ (λ h. cc (rw e at h), λ h. cc (e, h d refl))
]

-- `copy` is given no `src`.
copy_iff :
    (name : String) (o : Option Yaml) (v : Violation)
    → (push_if (str_eq name copy_module_key && has_src o) v ≡ [])
      ↔ (name ≡ copy_module_key → (d : Dict) → as_object o ≡ some d → lookup "src" d ≡ none)
copy_iff name o v = elim (Bool-cases (str_eq name copy_module_key)) [
  | inl same ↦ rw same (
    λ h _. (has_src_iff (as_object o)).0 ((push_if-eq-nil _ _).0 h),
    λ h.
        (push_if-eq-nil _ _).1
          ((has_src_iff (as_object o)).1 (h ((eq_iff name copy_module_key).0 same))),
  )
  | inr other ↦ rw other (λ _ e. cc (other, (eq_iff name copy_module_key).1 e), λ _. refl)
]

module _ (i : TaskIndex) (mode : Mode) (t : Dict) where
  -- An include key whose argument is no mapping is reported.
  include_mapping :
      (key : String) (value : Option Yaml)
      → validate_include_role i key value ≡ []
      → (args : Dict) × (as_object value ≡ some args)
  unfolding validate_include_role
  include_mapping key value e = elim (Option-cases (as_object value)) [
    | inl h ↦ cc (rw (h, validate_include_role) at e)
    | inr found ↦ found
  ]

  include_module_iff :
      (key : String)
      → is_include_key mode key ≡ true
      → (check_module i mode t key ≡ []) ↔ IsSafeModule mode t key
  unfolding check_module
  include_module_iff key h =
      rw (h, check_module)
        (
          λ e.
              let (args, found) =
                include_mapping key (lookup key t) ((append-eq-nil_iff _ _).0 e).0 in
              includes_role args h found
                ((include_iff i key (lookup key t) (lookup "vars" t) args found).0 e),
          λ safe. elim safe [
            | includes_role args _ found ok ↦
                (include_iff i key (lookup key t) (lookup "vars" t) args found).1 ok
            | runs_module no_include _ _ ↦ cc
          ],
        )

  plain_module_iff :
      (key : String)
      → is_include_key mode key ≡ false
      → (check_module i mode t key ≡ []) ↔ IsSafeModule mode t key
  unfolding check_module
  plain_module_iff key h =
      elim (Bool-cases (member (normalize_module_key key mode) (module_allowlist_for mode))) [
        | inl listed ↦
            rw (h, listed, check_module)
              (
                λ e. runs_module h listed ((copy_iff _ _ _).0 e),
                λ safe. elim safe [
                  | includes_role args include _ _ ↦ cc
                  | runs_module _ _ copies ↦ (copy_iff _ _ _).1 copies
                ],
              )
        | inr unlisted ↦
            rw (h, unlisted, check_module)
              (
                λ e. cc,
                λ safe. elim safe [
                  | includes_role args include _ _ ↦ cc
                  | runs_module _ listed _ ↦ cc
                ],
              )
      ]

  pub check_module_iff : (key : String) → (check_module i mode t key ≡ []) ↔ IsSafeModule mode t key
  check_module_iff key = elim (Bool-cases (is_include_key mode key)) [
    | inl h ↦ include_module_iff key h
    | inr h ↦ plain_module_iff key h
  ]

  pub forbidden_iff :
      (include : Bool) (key : String)
      → (check_forbidden i include key ≡ [])
        ↔ ((member key forbidden_task_keys ≡ false) ⊎ ((key ≡ "vars") × (include ≡ true)))
  unfolding check_forbidden
  forbidden_iff include key = elim (Bool-cases (member key forbidden_task_keys)) [
    | inl h ↦ rw h (ground (arith, eq_iff key "vars"))
    | inr h ↦ rw h (ground (arith, eq_iff key "vars"))
  ]

  pub modules_iff : (check_modules i mode t ≡ []) ↔ (
      (get_module_candidate_keys t ≢ []) × All (IsSafeModule mode t) (get_module_candidate_keys t))
  unfolding check_modules
  modules_iff = by_keys (get_module_candidate_keys t)
    where
      by_keys :
          (ks : List String)
          → ((if is_empty ks
                then violation i "root" "no recognized module key" ∷ []
                else flat_map (check_module i mode t) ks)
              ≡ [])
            ↔ ((ks ≢ []) × All (IsSafeModule mode t) ks)
      by_keys [] = (λ e. cc, λ h. absurd (h.0 refl))
      by_keys (k ∷ ks) =
          let (to, from) =
            flat_map-eq-nil (IsSafeModule mode t) (check_module i mode t) check_module_iff
              (k ∷ ks) in
          (λ e. (λ h. cc, to e), λ h. from (h.1))

  pub fact_iff :
      (key : String)
      → (check_set_fact i t key ≡ []) ↔ (
          member key set_fact_module_keys ≡ true
          → (d : Dict) → as_object (lookup key t) ≡ some d
          → All (λ name. is_reserved_var_name name ≡ false) (keys d))
  unfolding check_set_fact
  fact_iff key = elim (Bool-cases (member key set_fact_module_keys)) [
    | inl h ↦
        let (to, from) =
          object_iff (λ d. All (λ name. is_reserved_var_name name ≡ false) (keys d)) _
            (λ d.
              flat_map-eq-nil (λ name. is_reserved_var_name name ≡ false) _
                (λ name. push_if-eq-nil (is_reserved_var_name name) _) (keys d))
            (as_object (lookup key t)) in
        rw (h, check_set_fact) (λ e _. to e, λ f. from (f refl))
    | inr h ↦ rw (h, check_set_fact) (λ _ e. cc, λ _. refl)
  ]
