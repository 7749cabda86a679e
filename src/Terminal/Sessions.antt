-- ===== src/Terminal/Sessions.antt =====
-- terminal/terminal-session-manager.ts: who may resume a session.
use ai_support_agent_cli.Common.{
  ℕ, Bool, true, false, Option, none, some, String, ◌≡◌, ◌≢◌, ◌↔◌, inl, inr, refl, sym, some-inj,
  ◌∙◌, ap, Bool-cases, Option-cases, eq_iff, eq_refl, and-eq-true, lookup, erase,
}
use ai_support_agent_cli.Terminal.{
  Meta, Manager, ResumeResult, resumed, same_meta, meta_matches, clear_grace_timer, resume_object,
  resume_session,
}

-- The tests that a resume of the session `i` passes.
abbrev pub Resumable : Manager → String → Option Meta → ℕ → Type 0
Resumable m id presented i =
    (lookup id m.sessions ≡ some i)
    × ((m.objects i).exited ≡ false)
    × (meta_matches (m.objects i).meta presented ≡ true)

-- What a resume leaves of the manager.
abbrev pub Untouched : Manager → String → ResumeResult → Manager → Type 0
Untouched m id result after =
    (after.sessions ≡ m.sessions)
    × (after.spawned ≡ m.spawned)
    × (after.objects ≡ m.objects)
    × ((i : ℕ) → result ≡ resumed i → after.grace_timers ≡ erase id m.grace_timers)
    × (((i : ℕ) → result ≢ resumed i) → after ≡ m)

resume_object-Untouched :
    (id : String) (presented : Option Meta) (j : ℕ) (m : Manager)
    → Untouched m id (resume_object id presented j m).0 (resume_object id presented j m).1
unfolding clear_grace_timer
resume_object-Untouched id presented j m = elim (Bool-cases (m.objects j).exited) [
  | inl x ↦ rw x (refl, refl, refl, (λ i h. cc), (λ h. refl))
  | inr x ↦ elim (Bool-cases (meta_matches (m.objects j).meta presented)) [
    | inl y ↦ rw (x, y) (refl, refl, refl, (λ i h. refl), (λ h. absurd (h j refl)))
    | inr y ↦ rw (x, y) (refl, refl, refl, (λ i h. cc), (λ h. refl))
  ]
]

resume_session-Untouched :
    (id : String) (presented : Option Meta) (m : Manager)
    → Untouched m id (resume_session id presented m).0 (resume_session id presented m).1
unfolding resume_session
resume_session-Untouched id presented m = elim (Option-cases (lookup id m.sessions)) [
  | inl e ↦ rw (resume_session, e) (refl, refl, refl, (λ i h. cc), (λ h. refl))
  | inr (j, e) ↦ rw (resume_session, e) (resume_object-Untouched id presented j m)
]

bool_clash : {b : Bool} → b ≡ true → b ≡ false → ⊥
bool_clash p q = cc

resume_object_iff :
    (id : String) (presented : Option Meta) (m : Manager) (i j : ℕ)
    → lookup id m.sessions ≡ some j
    → ((resume_object id presented j m).0 ≡ resumed i) ↔ Resumable m id presented i
resume_object_iff id presented m i j e =
    let same = λ (k : lookup id m.sessions ≡ some i). some-inj (sym e ∙ k) in
    elim (Bool-cases (m.objects j).exited) [
      | inl x ↦ rw x (
        λ h. cc,
        λ (k, alive, y).
            absurd (bool_clash x (ap (λ (n : ℕ). (m.objects n).exited) (same k) ∙ alive)),
      )
      | inr x ↦ elim (Bool-cases (meta_matches (m.objects j).meta presented)) [
        | inl y ↦
            rw (x, y)
              (
                λ h.
                    let k : j ≡ i = cc in
                    (
                      e ∙ ap (λ (n : ℕ). some n) k,
                      ap (λ (n : ℕ). (m.objects n).exited) (sym k) ∙ x,
                      ap (λ (n : ℕ). meta_matches (m.objects n).meta presented) (sym k) ∙ y,
                    ),
                λ (k, alive, z). ap resumed (same k),
              )
        | inr y ↦
            rw (x, y)
              (
                λ h. cc,
                λ (k, alive, z). absurd (
                    bool_clash z (
                      ap (λ (n : ℕ). meta_matches (m.objects n).meta presented) (sym (same k))
                      ∙ y)),
              )
      ]
    ]

resumes_iff :
    (id : String) (presented : Option Meta) (m : Manager) (i : ℕ)
    → ((resume_session id presented m).0 ≡ resumed i) ↔ Resumable m id presented i
unfolding resume_session
resumes_iff id presented m i = elim (Option-cases (lookup id m.sessions)) [
  | inl e ↦ rw (resume_session, e) (λ h. cc, λ (k, alive, y). absurd (missing k))
  | inr (j, e) ↦ rw (resume_session, e) (rw e at (resume_object_iff id presented m i j e))
]
  where
    missing : none ≡ some i → ⊥
    missing h = cc

-- Who may take over the session `i`: whoever presents the meta that it was made with.
abbrev pub MayResume : Manager → String → Option Meta → ℕ → Type 0
MayResume m id presented i =
    (lookup id m.sessions ≡ some i)
    × ((m.objects i).exited ≡ false)
    × ((meta : Meta) × ((m.objects i).meta ≡ some meta) × (presented ≡ some meta))

same_meta_lem : (a b : Meta) → same_meta a b ≡ true → a ≡ b
same_meta_lem a b h =
    let (t, h') = and-eq-true h in
    let (p, u) = and-eq-true h' in
    meta_path a b ((eq_iff a.tenant_code b.tenant_code).0 t)
      ((eq_iff a.project_code b.project_code).0 p) ((eq_iff a.user_id b.user_id).0 u)
  where
    meta_path :
        (a b : Meta)
        → a.tenant_code ≡ b.tenant_code
        → a.project_code ≡ b.project_code
        → a.user_id ≡ b.user_id
        → a ≡ b
    meta_path a b t p u = cc

same_meta_refl : (a : Meta) → same_meta a a ≡ true
same_meta_refl a = rw (eq_refl a.tenant_code, eq_refl a.project_code, eq_refl a.user_id) refl

meta_matches_iff :
    (recorded presented : Option Meta)
    → (meta_matches recorded presented ≡ true)
      ↔ ((meta : Meta) × (recorded ≡ some meta) × (presented ≡ some meta))
unfolding meta_matches
meta_matches_iff none presented = (λ h. cc, λ (meta, e, e'). cc)
meta_matches_iff (some a) none = (λ h. cc, λ (meta, e, e'). cc)
meta_matches_iff (some a) (some b) = (
  λ h. (a, refl, ap (λ (x : Meta). some x) (sym (same_meta_lem a b h))),
  λ (meta, e, e'). rw (some-inj (e ∙ sym e')) (same_meta_refl b),
)

-- A resume gives a session exactly when one of that id is managed, is alive, and was made with the meta
-- that is presented. It never spawns a process and leaves every session as it is: it clears the grace timer
-- of the session that it gives, and changes nothing when it gives none.
pub resume_session_iff :
    (id : String) (presented : Option Meta) (m : Manager) (i : ℕ)
    → (((resume_session id presented m).0 ≡ resumed i) ↔ MayResume m id presented i)
      × Untouched m id (resume_session id presented m).0 (resume_session id presented m).1
resume_session_iff id presented m i =
    let tests = resumes_iff id presented m i in
    let metas = meta_matches_iff (m.objects i).meta presented in
    (
      (
        λ h. let (k, alive, y) = tests.0 h in (k, alive, metas.0 y),
        λ (k, alive, y). tests.1 (k, alive, metas.1 y),
      ),
      resume_session-Untouched id presented m,
    )
