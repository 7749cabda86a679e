-- ===== src/Tokens/Resolving.antt =====
-- utils/token-utils.ts, `resolveDirectStartTarget`: which project a direct start is for.
use mathlib.Core.Path.{subst}
use ai_support_agent_cli.Common.{
  ℕ, Bool, true, false, not, ◌&&◌, ◌||◌, Option, none, some, [], ◌∷◌, ◌++◌, ◌≡◌, ◌≢◌, ◌⊎◌, ◌↔◌, inl,
  inr, refl, sym, ◌∙◌, ap, if◌then◌else◌, ◌==◌, Bool-cases, arith, is_empty, All, some-inj,
}
use ai_support_agent_cli.Common.Text.{Text, text_eq, text_eq_iff}
use ai_support_agent_cli.Tokens.{
  cut, before, Target, target, invalid_project_format, tenant_mismatch, checked,
  resolve_direct_start_target, extract_tenant_code_from_token,
}

-- `t` is `a`, `c`, `b`, and `c` does not stand in `a`.
abbrev pub Cuts : ℕ → Text → Text → Text → Type 0
Cuts c t a b = (t ≡ a ++ (c ∷ b)) × All (λ d. (d == c) ≡ false) a

self_eq : (n : ℕ) → (n == n) ≡ true
self_eq n = ground arith

cut-append :
    (c : ℕ) (a b : Text) → All (λ d. (d == c) ≡ false) a → cut c (a ++ (c ∷ b)) ≡ some (a, b)
unfolding cut
cut-append c [] b h = rw (self_eq c) refl
cut-append c (d ∷ a) b (n, h) = rw (n, cut-append c a b h) refl

before_sound :
    (c d : ℕ) (t a b : Text) (rest : Option (Text × Text))
    → ((a' b' : Text) → rest ≡ some (a', b') → Cuts c t a' b')
    → (d == c) ≡ false
    → before d rest ≡ some (a, b)
    → Cuts c (d ∷ t) a b
before_sound c d t a b none known n h = cc
before_sound c d t a b (some (a', b')) known n h =
    let (e, free) = known a' b' refl in
    let here : Cuts c (d ∷ t) (d ∷ a') b' = (ap (λ (u : Text). d ∷ u) e, (n, free)) in
    let pair : (d ∷ a', b') ≡ (a, b) = some-inj h in
    subst (λ (p : Text × Text). Cuts c (d ∷ t) (p.0) (p.1)) pair here

cut_sound : (c : ℕ) (t a b : Text) → cut c t ≡ some (a, b) → Cuts c t a b
unfolding cut
cut_sound c [] a b h = cc
cut_sound c (d ∷ t) a b h = elim (Bool-cases (d == c)) [
  | inl e ↦
      let pair : ([], t) ≡ (a, b) = some-inj (rw e at h) in
      let same : d ≡ c = ground (arith, e) in
      subst (λ (p : Text × Text). Cuts c (d ∷ t) (p.0) (p.1)) pair (ap (λ (n : ℕ). n ∷ t) same, tt)
  | inr e ↦ before_sound c d t a b (cut c t) (cut_sound c t) e (rw e at h)
]

cut_iff : (c : ℕ) (t a b : Text) → (cut c t ≡ some (a, b)) ↔ Cuts c t a b
cut_iff c t a b = (cut_sound c t a b, λ (e, free). rw e (cut-append c a b free))

-- The parts of the flag that the token allows.
abbrev pub Allowed : Text → Text → Text → Type 0
Allowed token_tenant tenant project =
    (tenant ≢ []) × (project ≢ []) × ((token_tenant ≡ []) ⊎ (token_tenant ≡ tenant))

target_iff :
    (a b tenant project : Text)
    → (target a b ≡ target tenant project) ↔ ((a ≡ tenant) × (b ≡ project))
target_iff a b tenant project = (λ h. (cc, cc), λ (e, e'). cc)

abbrev found : Text → Text → Option (Text × Text)
found a b = some (a, b)

pair_iff :
    (a b tenant project : Text)
    → (found a b ≡ found tenant project) ↔ ((a ≡ tenant) × (b ≡ project))
pair_iff a b tenant project = (
  λ h. (ap (λ (p : Text × Text). p.0) (some-inj h), ap (λ (p : Text × Text). p.1) (some-inj h)),
  λ (e, e'). cc,
)

nonempty_iff : (a b : Text) → ((is_empty a || is_empty b) ≡ false) ↔ ((a ≢ []) × (b ≢ []))
nonempty_iff [] b = (λ h. cc, λ (n, k). absurd (n refl))
nonempty_iff (x ∷ a) [] = (λ h. cc, λ (n, k). absurd (k refl))
nonempty_iff (x ∷ a) (y ∷ b) = (λ h. ((λ e. cc), (λ e. cc)), λ h. refl)

same_tenant_iff :
    (t a : Text) → ((not (is_empty t) && not (text_eq t a)) ≡ false) ↔ ((t ≡ []) ⊎ (t ≡ a))
same_tenant_iff [] a = (λ h. inl refl, λ h. refl)
same_tenant_iff (x ∷ t) a = (
  λ h. inr ((text_eq_iff (x ∷ t) a).0 (ground (arith, h))),
  λ h. elim h [ inl e ↦ cc | inr e ↦ rw ((text_eq_iff (x ∷ t) a).1 e) refl ],
)

target_if_iff :
    (b : Bool) (other r : Target) (tenant project : Text)
    → other ≢ target tenant project
    → ((if b then other else r) ≡ target tenant project)
      ↔ ((b ≡ false) × (r ≡ target tenant project))
target_if_iff true other r tenant project n = (λ h. absurd (n h), λ (e, h). cc)
target_if_iff false other r tenant project n = (λ h. (refl, h), λ (e, h). h)

checked_iff :
    (token_tenant tenant project : Text) (parts : Option (Text × Text))
    → (checked token_tenant parts ≡ target tenant project)
      ↔ ((parts ≡ found tenant project) × Allowed token_tenant tenant project)
checked_iff t tenant project none = (λ h. cc, λ h. cc)
checked_iff t tenant project (some (a, b)) =
    let full =
      target_if_iff (is_empty a || is_empty b) invalid_project_format _ tenant project (λ k. cc) in
    let owned =
      target_if_iff (not (is_empty t) && not (text_eq t a)) (tenant_mismatch t a) (target a b)
        tenant project (λ k. cc) in
    (
      λ h.
          let (e, h1) = full.0 h in
          let (o, h2) = owned.0 h1 in
          let (k, k') = (target_iff a b tenant project).0 h2 in
          let (n, n') = (nonempty_iff a b).0 e in
          (
            (pair_iff a b tenant project).1 (k, k'),
            (
              λ x. n (k ∙ x),
              λ x. n' (k' ∙ x),
              subst (λ (u : Text). (t ≡ []) ⊎ (t ≡ u)) k ((same_tenant_iff t a).0 o),
            ),
          ),
      λ (e, (n, n', o)).
          let (k, k') = (pair_iff a b tenant project).0 e in
          full.1 (
            (nonempty_iff a b).1 (λ x. n (sym k ∙ x), λ x. n' (sym k' ∙ x)),
            owned.1 (
              (same_tenant_iff t a).1 (subst (λ (u : Text). (t ≡ []) ⊎ (t ≡ u)) (sym k) o),
              (target_iff a b tenant project).1 (k, k'),
            ),
          ),
    )

-- With a project given, a direct start resolves to a tenant and a project exactly when the flag is the two
-- with the first `/` between them, neither is empty, and the token names that tenant or none; without one it
-- resolves to the fallback.
pub resolve_direct_start_target_iff :
    (token flag tenant project : Text) (fallback : Text × Text)
    → (flag ≢ []
        → (resolve_direct_start_target token (some flag) fallback ≡ target tenant project) ↔ (
            Cuts b'/' flag tenant project
            × Allowed (extract_tenant_code_from_token token) tenant project))
      × (resolve_direct_start_target token none fallback ≡ target (fallback.0) (fallback.1))
      × (resolve_direct_start_target token (some []) fallback ≡ target (fallback.0) (fallback.1))
unfolding resolve_direct_start_target
resolve_direct_start_target_iff token [] tenant project fallback =
    (λ n. absurd (n refl), refl, refl)
resolve_direct_start_target_iff token (x ∷ flag) tenant project fallback =
    let t = extract_tenant_code_from_token token in
    let resolved = checked_iff t tenant project (cut b'/' (x ∷ flag)) in
    let parts = cut_iff b'/' (x ∷ flag) tenant project in
    (
      λ n. (λ h. let (e, a) = resolved.0 h in (parts.0 e, a), λ (c, a). resolved.1 (parts.1 c, a)),
      refl,
      refl,
    )
