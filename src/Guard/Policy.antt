-- ===== src/Guard/Policy.antt =====
-- The words of the policy of server-setup/ansible-task-guard.ts, by what they mean: reserved names, keys of
-- modules, full names of modules, and the text that a task may not hold.
use mathlib.Core.List.{Memᴰ}
use mathlib.Core.Path.{subst}
use mathlib.Core.Bool.{false≢true}
use ai_support_agent_cli.Common.{
  Bool, true, false, not, ◌&&◌, ◌≡◌, ◌≢◌, ◌⊎◌, ◌↔◌, inl, inr, refl, sym, ap, ◌∙◌, String, List, [],
  ◌∷◌, ◌++◌, arith, All, Bool-cases, Option-cases, filter, member, str_eq, eq_iff,
}
use ai_support_agent_cli.Common.Text.{
  Text, codes, strip_prefix, strip_prefix-append, strip_prefix_sound, starts_with, is_alnum,
}
use ai_support_agent_cli.Guard.Yaml.{Dict, keys}
use ai_support_agent_cli.Guard.Names.{
  Mode, resident, forbidden_task_keys, control_keys, builtin_short_names, module_allowlist,
  resident_extra_module_allowlist, resident_extra_short_names, reserved_var_names, builtin,
  is_reserved_var_name,
}
use ai_support_agent_cli.Guard.Validate.{get_module_candidate_keys}

-- A name that belongs to Ansible: one of its own, or any that begins with `ansible_`.
pub data IsReserved (name : String) : Type 0 where
  prefixed : (rest : Text) → codes name ≡ codes "ansible_" ++ rest → IsReserved name
  own : Memᴰ name reserved_var_names → IsReserved name

-- A key of a task that names a module.
pub record IsModuleKey (t : Dict) (key : String) : Type 0 where
  pub present : Memᴰ key (keys t)
  pub no_control : ¬ Memᴰ key control_keys
  pub no_forbidden : ¬ Memᴰ key forbidden_task_keys

abbrev pub IsIncludeRole : String → Type 0
IsIncludeRole key = (key ≡ "include_role") ⊎ (key ≡ "ansible.builtin.include_role")

-- The full name of the module that a key names: the short names of the core modules stand for
-- `ansible.builtin.` and the name, those of the resident mode only in it; other keys are full names.
pub data FullName (mode : Mode) (key : String) : String → Type 0 where
  short : Memᴰ key builtin_short_names → FullName mode key (builtin key)
  resident_short :
      mode ≡ resident → Memᴰ key resident_extra_short_names → FullName mode key (builtin key)
  written :
      ¬ Memᴰ key builtin_short_names
      → ¬ ((mode ≡ resident) × Memᴰ key resident_extra_short_names)
      → FullName mode key key

-- The modules that a mode allows.
abbrev pub IsAllowedModule : Mode → String → Type 0
IsAllowedModule mode name =
    Memᴰ name module_allowlist ⊎ ((mode ≡ resident) × Memᴰ name resident_extra_module_allowlist)

-- The name of a file of tasks: letters, digits, `_` and `-`, at least one.
pub record IsFileName (s : String) : Type 0 where
  pub not_empty : codes s ≢ []
  pub plain : All (λ c. (is_alnum c ≡ true) ⊎ (c ≡ b'_') ⊎ (c ≡ b'-')) (codes s)

pub member_iff : (s : String) (xs : List String) → (member s xs ≡ true) ↔ Memᴰ s xs
unfolding member
member_iff s [] = (λ h. absurd (false≢true h), λ h. elim h [ ])
member_iff s (x ∷ xs) = elim (Bool-cases (str_eq x s)) [
  | inl same ↦ (λ h. Memᴰ.head (sym ((eq_iff x s).0 same)), λ h. ground arith)
  | inr other ↦
      let (to, from) = member_iff s xs in
      (
        λ h. Memᴰ.tail (to (ground arith)),
        λ h. elim h [
          | Memᴰ.head e ↦ absurd (false≢true (sym other ∙ (eq_iff x s).1 (sym e)))
          | Memᴰ.tail m ↦ ground (arith, from m)
        ],
      )
]

pub member_not_iff : (s : String) (xs : List String) → (member s xs ≡ false) ↔ ¬ Memᴰ s xs
member_not_iff s xs =
    let (to, from) = member_iff s xs in (λ h m. cc (h, from m), λ h. ground (arith, h, to))

starts_iff : (t p : Text) → (starts_with t p ≡ true) ↔ ((rest : Text) × (t ≡ p ++ rest))
starts_iff t p = elim (Option-cases (strip_prefix p t)) [
  | inl e ↦ (λ h. cc (rw e at h), λ h. cc (e, strip_prefix-append p (h.0), ap (strip_prefix p) h.1))
  | inr (rest, e) ↦ (λ h. (rest, strip_prefix_sound p t {r = rest} e), λ h. rw e refl)
]

pub IsReserved-iff : (name : String) → (is_reserved_var_name name ≡ false) ↔ ¬ IsReserved name
unfolding is_reserved_var_name
IsReserved-iff name =
    let (to, from) = member_iff name reserved_var_names in
    let (begins, starts) = starts_iff (codes name) (codes "ansible_") in
    (
      λ h r. elim r [
        | prefixed rest e ↦ ground (arith, starts (rest, e))
        | own m ↦ ground (arith, from m)
      ],
      λ h. elim (Bool-cases (starts_with (codes name) (codes "ansible_"))) [
        | inl s ↦ let (rest, e) = begins s in absurd (h (prefixed rest e))
        | inr s ↦ elim (Bool-cases (member name reserved_var_names)) [
          | inl m ↦ absurd (h (own (to m)))
          | inr m ↦ rw (s, m) refl
        ]
      ],
    )

pub All_iff {κ} :
    {A : Type 0} (P : A → Type κ) (xs : List A) → All P xs ↔ ((x : A) → Memᴰ x xs → P x)
All_iff P [] = (λ h x m. elim m [ ], λ h. tt)
All_iff P (x ∷ xs) =
    let (to, from) = All_iff P xs in
    (
      λ h y m. elim m [ Memᴰ.head e ↦ subst P (sym e) (h.0) | Memᴰ.tail m' ↦ to (h.1) y m' ],
      λ h. (h x (Memᴰ.head refl), from (λ y m. h y (Memᴰ.tail m))),
    )

filter_iff :
    (p : String → Bool) (xs : List String) (x : String)
    → Memᴰ x (filter p xs) ↔ (Memᴰ x xs × (p x ≡ true))
filter_iff p [] x = (λ m. elim m [ ], λ h. elim (h.0) [ ])
filter_iff p (y ∷ xs) x =
    let (to, from) = filter_iff p xs x in
    elim (Bool-cases (p y)) [
      | inl keep ↦ rw keep (
        λ m. elim m [
          | Memᴰ.head e ↦ (Memᴰ.head e, ap p e ∙ keep)
          | Memᴰ.tail m' ↦ (Memᴰ.tail (to m').0, (to m').1)
        ],
        λ h. elim h.0 [ Memᴰ.head e ↦ Memᴰ.head e | Memᴰ.tail m' ↦ Memᴰ.tail (from (m', h.1)) ],
      )
      | inr drop ↦ rw drop (
        λ m. (Memᴰ.tail (to m).0, (to m).1),
        λ h. elim h.0 [
          | Memᴰ.head e ↦ absurd (false≢true (sym drop ∙ ap p (sym e) ∙ h.1))
          | Memᴰ.tail m' ↦ from (m', h.1)
        ],
      )
    ]

-- The candidates of `getModuleCandidateKeys` are the keys of modules.
pub candidate_iff :
    (t : Dict) (key : String) → Memᴰ key (get_module_candidate_keys t) ↔ IsModuleKey t key
unfolding get_module_candidate_keys
candidate_iff t key =
    let (to, from) =
      filter_iff (λ k. not (member k control_keys) && not (member k forbidden_task_keys)) (keys t)
        key in
    let (c_to, c_from) = member_not_iff key control_keys in
    let (f_to, f_from) = member_not_iff key forbidden_task_keys in
    (
      λ m.
          let (present, passes) = to m in
          record {
            present = present;
            no_control = c_to (ground arith);
            no_forbidden = f_to (ground arith);
          },
      λ k. from (k.present, ground (arith, c_from k.no_control, f_from k.no_forbidden)),
    )

pub candidates_iff {κ} :
    (P : String → Type κ) (t : Dict)
    → All P (get_module_candidate_keys t) ↔ ((key : String) → IsModuleKey t key → P key)
candidates_iff P t =
    let (to, from) = All_iff P (get_module_candidate_keys t) in
    (
      λ h key k. to h key ((candidate_iff t key).1 k),
      λ h. from (λ key m. h key ((candidate_iff t key).0 m)),
    )

pub some_candidate_iff :
    (t : Dict) → (get_module_candidate_keys t ≢ []) ↔ ((key : String) × IsModuleKey t key)
some_candidate_iff t = (
  λ h. let (key, m) = first (get_module_candidate_keys t) h in (key, (candidate_iff t key).0 m),
  λ h e. absurd (nothing (subst (λ xs. Memᴰ h.0 xs) e ((candidate_iff t h.0).1 h.1))),
)
  where
    first : (xs : List String) → xs ≢ [] → (x : String) × Memᴰ x xs
    first [] h = absurd (h refl)
    first (x ∷ xs) h = (x, Memᴰ.head refl)

    nothing : {x : String} → Memᴰ x [] → ⊥
    nothing m = elim m [ ]
