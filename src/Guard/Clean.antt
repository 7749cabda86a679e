-- ===== src/Guard/Clean.antt =====
-- The two searches of server-setup/ansible-task-guard.ts through all that a document holds: for calls of lookup
-- plugins in its strings, and for plays among its tasks.
use mathlib.Core.List.{Memᴰ}
use mathlib.Core.Bool.{false≢true}
use ai_support_agent_cli.Common.{
  Bool, false, ◌||◌, ◌≡◌, ◌↔◌, inl, inr, refl, sym, ◌∙◌, String, List, arith, any, any_sound,
  any_complete, Bool-cases, Option, none, some, lookup, has, is_some,
}
use ai_support_agent_cli.Common.Text.{codes}
use ai_support_agent_cli.Guard.Yaml.{
  Yaml, null, bool, num, str, timestamp, seq, mapping, Items, nil, cons, Fields, end, field, Dict,
  plain_object,
}
use ai_support_agent_cli.Guard.Names.{play_format_keys}
use ai_support_agent_cli.Guard.Scan.{
  contains_lookup, contains_lookup_items, contains_lookup_fields, has_plugin_call,
  contains_lookup_dict,
}
use ai_support_agent_cli.Guard.Validate.{has_play_key}
use ai_support_agent_cli.Guard.Lookup.{
  PluginCall, Holds, here, in_seq, in_mapping, HoldsItem, HoldsField, value_first, value_later,
  has_plugin_call_iff, clean_string,
}

not_found :
    {A : Type 0} (p : A → Bool) (xs : List A) → any p xs ≡ false → (x : A) → Memᴰ x xs → p x ≡ false
not_found p xs h x m = elim (Bool-cases (p x)) [
  | inl e ↦ absurd (false≢true (sym h ∙ any_complete p xs x m e))
  | inr e ↦ e
]

none_found :
    {A : Type 0} (p : A → Bool) (xs : List A)
    → ((x : A) → Memᴰ x xs → p x ≡ false)
    → any p xs ≡ false
none_found p xs h = elim (Bool-cases (any p xs)) [
  | inl e ↦ let (x, m, e') = any_sound p xs e in absurd (false≢true (sym (h x m) ∙ e'))
  | inr e ↦ e
]

neither : {a b : Bool} → a ≡ false → b ≡ false → (a || b) ≡ false
neither h k = ground arith

no_call : (s : String) → ¬ PluginCall false (codes s) → has_plugin_call (codes s) ≡ false
no_call s h = elim (Bool-cases (has_plugin_call (codes s))) [
  | inl e ↦ absurd (h ((has_plugin_call_iff (codes s)).0 e))
  | inr e ↦ e
]

-- `containsLookupPluginReference` finds a call wherever a string is held.
mutual
  unfolding contains_lookup

  clean_complete :
      (y : Yaml)
      → ((s : String) → Holds s y → ¬ PluginCall false (codes s))
      → contains_lookup y ≡ false
  clean_complete null h = refl
  clean_complete (bool b) h = refl
  clean_complete (num t) h = refl
  clean_complete (str s) h = no_call s (h s here)
  clean_complete (timestamp t) h = refl
  clean_complete (seq ys) h = clean_items ys (λ s held. h s (in_seq held))
  clean_complete (mapping fs) h = clean_fields fs (λ s held. h s (in_mapping held))

  clean_items :
      (ys : Items)
      → ((s : String) → HoldsItem s ys → ¬ PluginCall false (codes s))
      → contains_lookup_items ys ≡ false
  clean_items nil h = refl
  clean_items (cons y ys) h =
      neither (clean_complete y (λ s held. h s (HoldsItem.first held)))
        (clean_items ys (λ s held. h s (HoldsItem.later held)))

  clean_fields :
      (fs : Fields)
      → ((s : String) → HoldsField s fs → ¬ PluginCall false (codes s))
      → contains_lookup_fields fs ≡ false
  clean_fields end h = refl
  clean_fields (field k y fs) h =
      neither (clean_complete y (λ s held. h s (value_first held)))
        (clean_fields fs (λ s held. h s (value_later held)))

pub lookup_iff :
    (t : Dict)
    → (contains_lookup_dict t ≡ false)
      ↔ ((key s : String) (y : Yaml) → Memᴰ (key, y) t → Holds s y → ¬ PluginCall false (codes s))
lookup_iff t = (
  λ h key s y m held.
      clean_string held (not_found (λ (e : String × Yaml). contains_lookup e.1) t h (key, y) m),
  λ h.
      none_found (λ (e : String × Yaml). contains_lookup e.1) t
        (λ e m. clean_complete e.1 (λ s held. h e.0 s e.1 m held)),
)

pub no_play_iff :
    (ys : List Yaml)
    → (any has_play_key ys ≡ false) ↔ (
        (y : Yaml) (t : Dict) (key : String)
        → Memᴰ y ys
        → plain_object y ≡ some t
        → Memᴰ key play_format_keys
        → lookup key t ≡ none)
no_play_iff ys = (
  λ h y t key m object play. no_key (lookup key t) (
      not_found (λ k. has k t) play_format_keys
        (keys_of y t object (not_found has_play_key ys h y m)) key play),
  λ h. none_found has_play_key ys (λ y m. no_play_object y (plain_object y) refl (h y) m),
)
  where
    no_key : (o : Option Yaml) → is_some o ≡ false → o ≡ none
    no_key none e = refl
    no_key (some v) e = cc

    missing : (o : Option Yaml) → o ≡ none → is_some o ≡ false
    missing o e = rw e refl

    keys_of :
        (y : Yaml) (t : Dict)
        → plain_object y ≡ some t
        → has_play_key y ≡ false
        → any (λ k. has k t) play_format_keys ≡ false
    keys_of y t object e = rw (object, has_play_key) at e

    no_play_object :
        (y : Yaml) (o : Option Dict)
        → plain_object y ≡ o
        → ((t : Dict) (key : String)
            → Memᴰ y ys
            → plain_object y ≡ some t
            → Memᴰ key play_format_keys
            → lookup key t ≡ none)
        → Memᴰ y ys
        → has_play_key y ≡ false
    no_play_object y none e h m = rw (e, has_play_key) refl
    no_play_object y (some t) e h m =
        rw (e, has_play_key)
          (none_found (λ k. has k t) play_format_keys
            (λ k play. missing (lookup k t) (h t k m e play)))
