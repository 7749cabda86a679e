-- ===== src/Updates/Tests.antt =====
-- The gate at concrete settings.
use ai_support_agent_cli.Common.{Bool, true, false, Option, none, some, List, [], ◌∷◌, ◌≡◌, refl}
use ai_support_agent_cli.Updates.{
  resolve_auto_update_enablement, fetch_server_auto_update_enabled, auto_update_gate,
}

abbrev undecided : Option (List (Option Bool))
undecided = some (some true ∷ none ∷ [])

gate_computed :
    (auto_update_gate none (some true) undecided ≡ true)
    × (auto_update_gate none (some true) (some (some true ∷ some false ∷ [])) ≡ false)
    × (auto_update_gate none none (some (some true ∷ [])) ≡ true)
    × (auto_update_gate none none none ≡ false)
    × (auto_update_gate (some false) (some true) (some (some true ∷ [])) ≡ false)
unfolding auto_update_gate fetch_server_auto_update_enabled resolve_auto_update_enablement
gate_computed = (refl, refl, refl, refl, refl)

abbrev unset : Option Bool
unset = none
