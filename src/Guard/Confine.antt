-- ===== src/Guard/Confine.antt =====
-- What an accepted recipe cannot do, and how the two execution routes compare.
use ai_support_agent_cli.Common.{
  true, false, not, ◌&&◌, ◌≡◌, ◌⊎◌, inl, inr, refl, some, String, List, All, All-map, All-zip,
  All-filter, Bool-cases, some-inj, member,
}
use ai_support_agent_cli.Common.Text.{codes}
use ai_support_agent_cli.Guard.Yaml.{
  Yaml, null, timestamp, seq, mapping, Items, Fields, end, field, items, entries, Dict, keys,
  plain_object,
}
use ai_support_agent_cli.Guard.Names.{Mode, forbidden_task_keys, control_keys}
use ai_support_agent_cli.Guard.Scan.{contains_lookup, contains_lookup_fields, contains_lookup_dict}
use ai_support_agent_cli.Guard.Validate.{
  Parsed, document, accepted, is_include_role_task, get_module_candidate_keys,
  validate_ansible_tasks,
}
use ai_support_agent_cli.Guard.Safe.{IsSafeModule}
use ai_support_agent_cli.Guard.Accept.{accepted_normalized}
use ai_support_agent_cli.Guard.Lookup.{Holds, PluginCall, clean_string}

lookup_fields : (fs : Fields) → contains_lookup_dict (entries fs) ≡ contains_lookup_fields fs
unfolding contains_lookup
lookup_fields end = refl
lookup_fields (field k y fs) = rw (lookup_fields fs) refl

clean_raw :
    (y : Yaml) (t : Dict)
    → plain_object y ≡ some t
    → contains_lookup_dict t ≡ false
    → contains_lookup y ≡ false
unfolding contains_lookup
clean_raw (mapping fs) t e h = rw (← lookup_fields fs) (rw (← some-inj e) at h)
clean_raw (timestamp s) t e h = refl
clean_raw null t e h = cc
clean_raw y t e h = cc

-- Nowhere inside a task of an accepted body does a string call one of the plugins.
pub validate-no-PluginCall :
    (load : String → Parsed) (mode : Mode) (secrets : List String) (body : String) {ns : List Dict}
    → validate_ansible_tasks load mode secrets body ≡ accepted ns
    → (xs : Items) × (load body ≡ document (seq xs))
      × All (λ y. (s : String) → Holds s y → ¬ PluginCall false (codes s)) (items xs)
validate-no-PluginCall load mode secrets body {ns} h =
    let safe = (accepted_normalized load mode secrets body {ns = ns} h).0 in
    (
      safe.found,
      safe.parsed,
      All-map (λ y raw s holds. clean_string holds (clean_raw y (raw.0) (raw.1) (raw.2.no_lookup)))
          (items safe.found) safe.tasks,
    )

-- What a key of an accepted task can be.
pub data IsAccounted (mode : Mode) (t : Dict) (key : String) : Type 0 where
  controls : member key control_keys ≡ true → IsAccounted mode t key
  role_vars : key ≡ "vars" → is_include_role_task mode t ≡ true → IsAccounted mode t key
  module_key : IsSafeModule mode t key → IsAccounted mode t key

account :
    (mode : Mode) (t : Dict) (key : String)
    → ((member key forbidden_task_keys ≡ false)
        ⊎ ((key ≡ "vars") × (is_include_role_task mode t ≡ true)))
    → ((not (member key control_keys) && not (member key forbidden_task_keys)) ≡ true
        → IsSafeModule mode t key)
    → IsAccounted mode t key
account mode t key (inr vars) h = role_vars vars.0 vars.1
account mode t key (inl allowed) h = elim (Bool-cases (member key control_keys)) [
  | inl control ↦ controls control
  | inr other ↦ module_key (h (rw (allowed, other) refl))
]

-- Every key of every task of an accepted body is accounted for: it is one of the control keys, or
-- `vars` beside an `include_role`, or a module: one on the route's allowlist (`copy` with no `src`
-- in its mapping), or an `include_role` of a bundled role with safe arguments.
pub validate-accounts_keys :
    (load : String → Parsed) (mode : Mode) (secrets : List String) (body : String) {ns : List Dict}
    → validate_ansible_tasks load mode secrets body ≡ accepted ns
    → (xs : Items) × (load body ≡ document (seq xs))
      × All
          (λ y. (t : Dict) × (plain_object y ≡ some t) × All (IsAccounted mode t) (keys t))
          (items xs)
unfolding get_module_candidate_keys
validate-accounts_keys load mode secrets body {ns} h =
    let safe = (accepted_normalized load mode secrets body {ns = ns} h).0 in
    (
      safe.found,
      safe.parsed,
      All-map
          (λ y raw. (
            raw.0,
            raw.1,
            All-zip _ _ _ (account mode (raw.0)) (keys (raw.0)) (raw.2.keys_allowed)
                (All-filter _ _ (keys (raw.0)) (raw.2.modules)),
          ))
          (items safe.found) safe.tasks,
    )
