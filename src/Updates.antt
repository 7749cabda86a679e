-- ===== src/Updates.antt =====
-- auto-update-gate.ts and auto-update-enablement.ts: whether an update may run now.
mod Tests
use ai_support_agent_cli.Common.{
  Bool, true, false, not, ◌&&◌, ◌||◌, Option, none, some, List, [], ◌∷◌, ◌≡◌, ◌≢◌, ◌⊎◌, ◌↔◌, inl,
  inr, refl, sym, ◌∙◌, if◌then◌else◌, any, all, is_empty, arith, Bool-cases, All,
}

unfoldable pub resolve_auto_update_enablement : Option Bool → Option Bool → Option Bool → Bool
resolve_auto_update_enablement (some cli) server local = cli
resolve_auto_update_enablement none (some server) local = server
resolve_auto_update_enablement none none (some local) = local
resolve_auto_update_enablement none none none = false

abbrev pub is_disabled : Option Bool → Bool
is_disabled none = false
is_disabled (some b) = not b

abbrev pub is_enabled : Option Bool → Bool
is_enabled none = false
is_enabled (some b) = b

-- The settings of the projects, one for each client, `none` when one of them could not be read.
unfoldable pub fetch_server_auto_update_enabled : Option (List (Option Bool)) → Option Bool
fetch_server_auto_update_enabled none = none
fetch_server_auto_update_enabled (some values) =
    if is_empty values
    then none
    else if any is_disabled values
    then some false
    else if all is_enabled values
    then some true
    else none

-- The gate, with what the command line and the local settings say.
unfoldable pub auto_update_gate : Option Bool → Option Bool → Option (List (Option Bool)) → Bool
unfolding resolve_auto_update_enablement fetch_server_auto_update_enabled
auto_update_gate (some cli) local answers = cli
auto_update_gate none local answers =
    resolve_auto_update_enablement none (fetch_server_auto_update_enabled answers) local

-- Where there is a setting of every project, and every one is on.
abbrev pub AllOn : Option (List (Option Bool)) → Type 0
AllOn none = ⊥
AllOn (some values) = (values ≢ []) × All (λ v. v ≡ some true) values

-- Some project says no.
abbrev pub SomeOff : Option (List (Option Bool)) → Type 0
SomeOff none = ⊥
SomeOff (some values) = any is_disabled values ≡ true

all_enabled_iff :
    (values : List (Option Bool)) → (all is_enabled values ≡ true) ↔ All (λ v. v ≡ some true) values
all_enabled_iff [] = (λ h. tt, λ h. refl)
all_enabled_iff (none ∷ vs) = (λ h. cc, λ (e, h). cc)
all_enabled_iff (some true ∷ vs) =
    (λ h. (refl, (all_enabled_iff vs).0 h), λ (e, h). (all_enabled_iff vs).1 h)
all_enabled_iff (some false ∷ vs) = (λ h. cc, λ (e, h). cc)

enabled_not_off :
    (values : List (Option Bool)) → all is_enabled values ≡ true → any is_disabled values ≡ false
enabled_not_off [] h = refl
enabled_not_off (none ∷ vs) h = cc
enabled_not_off (some true ∷ vs) h = enabled_not_off vs h
enabled_not_off (some false ∷ vs) h = cc

fetch_on :
    (answers : Option (List (Option Bool)))
    → (fetch_server_auto_update_enabled answers ≡ some true) ↔ AllOn answers
unfolding fetch_server_auto_update_enabled
fetch_on none = (λ h. cc, λ h. absurd h)
fetch_on (some []) = (λ h. cc, λ (n, h). absurd (n refl))
fetch_on (some (v ∷ vs)) = elim (Bool-cases (any is_disabled (v ∷ vs))) [
  | inl e ↦ rw e (
    λ h. cc,
    λ (n, h). absurd (clash e (enabled_not_off (v ∷ vs) ((all_enabled_iff (v ∷ vs)).1 h))),
  )
  | inr e ↦ rw e (elim (Bool-cases (all is_enabled (v ∷ vs))) [
    | inl a ↦ rw a (λ h. ((λ k. cc), (all_enabled_iff (v ∷ vs)).0 a), λ h. refl)
    | inr a ↦ rw a (λ h. cc, λ (n, h). absurd (clash ((all_enabled_iff (v ∷ vs)).1 h) a))
  ])
]
  where
    clash : {b : Bool} → b ≡ true → b ≡ false → ⊥
    clash p q = cc

fetch_off :
    (answers : Option (List (Option Bool)))
    → (fetch_server_auto_update_enabled answers ≡ some false) ↔ SomeOff answers
unfolding fetch_server_auto_update_enabled
fetch_off none = (λ h. cc, λ h. absurd h)
fetch_off (some []) = (λ h. cc, λ h. cc)
fetch_off (some (v ∷ vs)) = elim (Bool-cases (any is_disabled (v ∷ vs))) [
  | inl e ↦ rw e (λ h. refl, λ h. refl)
  | inr e ↦ rw e (elim (Bool-cases (all is_enabled (v ∷ vs))) [
    | inl a ↦ rw a (λ h. cc, λ h. cc)
    | inr a ↦ rw a (λ h. cc, λ h. cc)
  ])
]

-- What the gate asks for when the command line says nothing.
abbrev pub Opened : Option Bool → Option (List (Option Bool)) → Type 0
Opened local answers = AllOn answers ⊎ ((SomeOff answers → ⊥) × (local ≡ some true))

Opened-iff :
    (server local : Option Bool) (answers : Option (List (Option Bool)))
    → fetch_server_auto_update_enabled answers ≡ server
    → (resolve_auto_update_enablement none server local ≡ true) ↔ Opened local answers
unfolding resolve_auto_update_enablement
Opened-iff (some true) local answers e = (λ h. inl ((fetch_on answers).0 e), λ h. refl)
Opened-iff (some false) local answers e = (
  λ h. cc,
  λ h. elim h [
    | inl on ↦ let k = sym e ∙ (fetch_on answers).1 on in cc
    | inr (never, l) ↦ absurd (never ((fetch_off answers).0 e))
  ],
)
Opened-iff none local answers e = (
  λ h. inr (λ off. differ (sym e ∙ (fetch_off answers).1 off), on_locally local h),
  λ h. elim h [
    | inl on ↦ absurd (differ (sym e ∙ (fetch_on answers).1 on))
    | inr (never, l) ↦ rw l refl
  ],
)
  where
    differ : {b : Bool} → none ≡ some b → ⊥
    differ h = cc

    on_locally :
        (l : Option Bool) → resolve_auto_update_enablement none none l ≡ true → l ≡ some true
    on_locally none h = cc
    on_locally (some true) h = refl
    on_locally (some false) h = cc

-- The gate lets an update run exactly when the command line says so, or says nothing and either the settings
-- of all the projects were read and are on, or the settings could not be read or are undecided, none of them
-- being off, and the local setting is on.
pub auto_update_gate_iff :
    (cli local : Option Bool) (answers : Option (List (Option Bool)))
    → (auto_update_gate cli local answers ≡ true)
      ↔ ((cli ≡ some true) ⊎ ((cli ≡ none) × Opened local answers))
unfolding auto_update_gate
auto_update_gate_iff (some true) local answers = (λ h. inl refl, λ h. refl)
auto_update_gate_iff (some false) local answers =
    (λ h. cc, λ h. elim h [ inl e ↦ cc | inr (e, o) ↦ cc ])
auto_update_gate_iff none local answers =
    let opened = Opened-iff (fetch_server_auto_update_enabled answers) local answers refl in
    (λ h. inr (refl, opened.0 h), λ h. elim h [ inl e ↦ cc | inr (e, o) ↦ opened.1 o ])
