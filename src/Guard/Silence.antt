-- ===== src/Guard/Silence.antt =====
-- When the checks of the guard report nothing: lemmas on lists of violations, and the checks of an
-- `include_role` task.
use ai_support_agent_cli.Common.{
  Bool, true, false, not, ◌≡◌, ◌≢◌, ◌↔◌, inl, inr, refl, Option, none, some, String, List, [], ◌∷◌,
  ◌++◌, arith, All, flat_map, any, Bool-cases, some-inj, sym, Option-cases, lookup, member, eq_iff,
  str_eq, is_empty,
}
use mathlib.Core.Path.{subst}
use ai_support_agent_cli.Common.Text.{Text, codes, trim, split, text_eq, text_eq_iff}
use ai_support_agent_cli.Guard.Yaml.{Yaml, Dict, keys, as_string, as_object}
use ai_support_agent_cli.Guard.Names.{
  include_role_allowed_roles, include_role_allowed_param_keys, is_reserved_var_name,
  shared_file_src_var, shared_file_role,
}
use ai_support_agent_cli.Guard.Role.{
  TaskIndex, Violation, push_if, role_allowed, tasks_from_bad, tasks_from_allowed, role_args,
  validate_include_role, reserved_vars, validate_include_role_task_vars, is_valid_src,
  is_shared_file_role, validate_shared_file_role_vars, property, dot_dot,
}
use ai_support_agent_cli.Guard.Safe.{IsSafeSource, IsSafeInclude}

pub push_if-eq-nil : (b : Bool) (v : Violation) → (push_if b v ≡ []) ↔ (b ≡ false)
push_if-eq-nil b v = ground arith

pub push_unless-eq-nil : (b : Bool) (v : Violation) → (push_if (not b) v ≡ []) ↔ (b ≡ true)
push_unless-eq-nil b v = ground arith

pub append-eq-nil_iff {ℓ} :
    {A : Type ℓ} (xs ys : List A) → (xs ++ ys ≡ []) ↔ ((xs ≡ []) × (ys ≡ []))
append-eq-nil_iff [] ys = (λ h. (refl, h), λ h. h.1)
append-eq-nil_iff (x ∷ xs) ys = (λ h. cc, λ h. cc (h.0))

pub append_iff {ℓ κ μ} :
    {A : Type ℓ} {P : Type κ} {Q : Type μ} {xs ys : List A}
    → (xs ≡ []) ↔ P
    → (ys ≡ []) ↔ Q
    → (xs ++ ys ≡ []) ↔ (P × Q)
append_iff {xs} {ys} (p, p') (q, q') =
    let (to, from) = append-eq-nil_iff xs ys in
    (λ h. (p (to h).0, q (to h).1), λ h. from (p' h.0, q' h.1))

pub flat_map-eq-nil {ℓ κ μ} :
    {A : Type ℓ} {B : Type κ} (P : A → Type μ) (f : A → List B)
    → ((a : A) → (f a ≡ []) ↔ P a)
    → (xs : List A) → (flat_map f xs ≡ []) ↔ All P xs
flat_map-eq-nil P f each [] = (λ h. tt, λ h. refl)
flat_map-eq-nil P f each (x ∷ xs) =
    let (to, from) = append-eq-nil_iff (f x) (flat_map f xs) in
    let (later, earlier) = flat_map-eq-nil P f each xs in
    (λ h. ((each x).0 (to h).0, later (to h).1), λ h. from ((each x).1 h.0, earlier h.1))

any-eq-false {ℓ κ} :
    {A : Type ℓ} (P : A → Type κ) (p : A → Bool)
    → ((a : A) → (p a ≡ false) ↔ P a)
    → (xs : List A) → (any p xs ≡ false) ↔ All P xs
any-eq-false P p each [] = (λ h. tt, λ h. refl)
any-eq-false P p each (x ∷ xs) =
    let (to, from) = each x in
    let (later, earlier) = any-eq-false P p each xs in
    (λ h. (to (ground arith), later (ground arith)), λ h. ground (arith, from h.0, earlier h.1))

text_eq-eq-false : (s t : Text) → (text_eq s t ≡ false) ↔ (s ≢ t)
text_eq-eq-false s t = ground (arith, text_eq_iff s t)

pub is_empty-false {ℓ} : {A : Type ℓ} (xs : List A) → xs ≢ [] → is_empty xs ≡ false
is_empty-false [] h = absurd (h refl)
is_empty-false (x ∷ xs) h = refl

-- `isValidSharedFileSrc` accepts exactly the safe paths.
pub is_valid_src_iff : (value : Text) → (is_valid_src value ≡ true) ↔ IsSafeSource value
unfolding is_valid_src
is_valid_src_iff value =
    let (to, from) =
      any-eq-false (λ s. s ≢ dot_dot) (λ s. text_eq s dot_dot) (λ s. text_eq-eq-false s dot_dot)
        (split b'/' (trim value)) in
    (
      λ h. record {
        not_empty = λ e. ground arith;
        no_expression = ground arith;
        no_statement = ground arith;
        relative = ground arith;
        stays_below = to (ground arith);
      },
      λ s. ground (arith, from s.stays_below, is_empty-false (trim value) s.not_empty),
    )

-- A check that is made only of an object.
pub object_iff {ℓ} :
    (P : Dict → Type ℓ) (f : Dict → List Violation)
    → ((d : Dict) → (f d ≡ []) ↔ P d)
    → (o : Option Dict)
    → ((elim o [ none ↦ [] | some d ↦ f d ]) ≡ []) ↔ ((d : Dict) → o ≡ some d → P d)
object_iff P f each none = (λ _ d e. cc, λ _. refl)
object_iff P f each (some d) =
    (λ h d' same. subst P (some-inj same) ((each d).0 h), λ h. (each d).1 (h d refl))

valid_source_iff :
    (o : Option String)
    → ((elim o [ none ↦ false | some s ↦ is_valid_src (codes s) ]) ≡ true)
      ↔ ((s : String) × (o ≡ some s) × IsSafeSource (codes s))
valid_source_iff none = (λ h. cc, λ h. cc (h.1))
valid_source_iff (some s) = (
  λ h. (s, refl, (is_valid_src_iff (codes s)).0 h),
  λ h.
      (is_valid_src_iff (codes s)).1 (subst (λ r. IsSafeSource (codes r)) (sym (some-inj h.1)) h.2),
)

allowed_iff :
    (o : Option String)
    → (role_allowed o ≡ true)
      ↔ ((role : String) × (o ≡ some role) × (member role include_role_allowed_roles ≡ true))
allowed_iff none = (λ h. cc, λ h. cc (h.1))
allowed_iff (some role) = (λ h. (role, refl, h), λ h. rw (some-inj h.1) h.2)

tasks_from_iff :
    (o : Option Yaml)
    → (tasks_from_bad o ≡ false) ↔ (
        (y : Yaml)
        → o ≡ some y
        → (s : String) × (as_string (some y) ≡ some s) × (tasks_from_allowed s ≡ true))
tasks_from_iff none = (λ h y e. cc, λ h. refl)
tasks_from_iff (some y) = elim (Option-cases (as_string (some y))) [
  | inl e ↦ (λ h. cc (rw (e, tasks_from_bad) at h), λ h. cc (e, (h y refl).1))
  | inr (s, e) ↦
      (λ h z same. (s, rw (← some-inj same) e, ground arith), λ h. ground (arith, h y refl))
]

module _ (i : TaskIndex) where
  role_args_iff :
      (args : Dict)
      → (role_args i args ≡ []) ↔ (
          (role_allowed (as_string (lookup "name" args)) ≡ true)
          × (All (λ key. member key include_role_allowed_param_keys ≡ true) (keys args)
              × (tasks_from_bad (lookup "tasks_from" args) ≡ false)))
  unfolding role_args
  role_args_iff args =
      append_iff (push_unless-eq-nil (role_allowed (as_string (lookup "name" args))) _) (
        append_iff
          (flat_map-eq-nil (λ key. member key include_role_allowed_param_keys ≡ true) _
            (λ key. push_unless-eq-nil (member key include_role_allowed_param_keys) _) (keys args))
          (push_if-eq-nil (tasks_from_bad (lookup "tasks_from" args)) _))

  reserved_vars_iff :
      (names : List String)
      → (reserved_vars i names ≡ []) ↔ All (λ name. is_reserved_var_name name ≡ false) names
  unfolding reserved_vars
  reserved_vars_iff names =
      flat_map-eq-nil (λ name. is_reserved_var_name name ≡ false) _
        (λ name. push_if-eq-nil (is_reserved_var_name name) _) names

  args_iff :
      (key : String) (value : Option Yaml) (args : Dict)
      → as_object value ≡ some args
      → (validate_include_role i key value ≡ []) ↔ (
          (role_allowed (as_string (lookup "name" args)) ≡ true)
          × (All (λ key. member key include_role_allowed_param_keys ≡ true) (keys args)
              × (tasks_from_bad (lookup "tasks_from" args) ≡ false)))
  unfolding validate_include_role
  args_iff key value args h = rw (h, validate_include_role) (role_args_iff args)

  vars_iff :
      (vars : Option Yaml)
      → (validate_include_role_task_vars i vars ≡ []) ↔ (
          (d : Dict)
          → as_object vars ≡ some d
          → All (λ name. is_reserved_var_name name ≡ false) (keys d))
  unfolding validate_include_role_task_vars
  vars_iff vars =
      object_iff (λ d. All (λ name. is_reserved_var_name name ≡ false) (keys d)) _
        (λ d. reserved_vars_iff (keys d)) (as_object vars)

  source_iff :
      (name vars : Option Yaml) (role : String)
      → as_string name ≡ some role
      → (validate_shared_file_role_vars i name vars ≡ []) ↔ (
          role ≡ "shared_file"
          → (s : String) × (as_string (property shared_file_src_var vars) ≡ some s)
            × IsSafeSource (codes s))
  unfolding validate_shared_file_role_vars
  source_iff name vars role h = elim (Bool-cases (str_eq role shared_file_role)) [
    | inl same ↦
        rw (h, is_shared_file_role, same)
          (
            λ e _.
                (valid_source_iff (as_string (property shared_file_src_var vars))).0
                  ((push_unless-eq-nil _ _).0 e),
            λ f. (push_unless-eq-nil _ _).1 (
                (valid_source_iff (as_string (property shared_file_src_var vars))).1
                  (f ((eq_iff _ _).0 same))),
          )
    | inr other ↦
        rw (h, is_shared_file_role, other)
          (λ _ e. cc (other, (eq_iff role shared_file_role).1 e), λ _. refl)
  ]

  -- The three validators of an `include_role` task are silent exactly on a safe one.
  pub include_iff :
      (key : String) (value vars : Option Yaml) (args : Dict)
      → as_object value ≡ some args
      → (validate_include_role i key value
            ++ (validate_include_role_task_vars i vars
                ++ validate_shared_file_role_vars i (property "name" value) vars)
          ≡ [])
        ↔ IsSafeInclude args vars
  include_iff key value vars args h =
      let e : property "name" value ≡ lookup "name" args = rw (h, property) in
      let (to, from) = append_iff (args_iff key value args h) (
        append_iff (vars_iff vars) (
          λ (silent : validate_shared_file_role_vars i (property "name" value) vars ≡ []). silent,
          λ (silent : validate_shared_file_role_vars i (property "name" value) vars ≡ []). silent,
        )) in
      (
        λ silent.
            let (a, rest) = to silent in
            let (role, named, allowed) = (allowed_iff _).0 (a.0) in
            record {
              role = role;
              named = named;
              allowed = allowed;
              params = a.1.0;
              tasks_from = (tasks_from_iff _).0 (a.1.1);
              vars_free = rest.0;
              source = (source_iff (property "name" value) vars role (rw e named)).0 (rest.1);
            },
        λ safe. from (
          (
            (allowed_iff _).1 (safe.role, safe.named, safe.allowed),
            (safe.params, (tasks_from_iff _).1 safe.tasks_from),
          ),
          (
            safe.vars_free,
            (source_iff (property "name" value) vars safe.role (rw e (safe.named))).1 safe.source,
          ),
        ),
      )
