-- ===== src/Guard/Lookup.antt =====
-- What LOOKUP_PLUGIN_PATTERN of server-setup/ansible-task-guard.ts matches, and that no text inside an
-- accepted task matches it.
use mathlib.Core.List.{Memᴰ}
use ai_support_agent_cli.Common.{
  Bool, true, false, not, ◌&&◌, ◌≡◌, ◌↔◌, inl, inr, refl, ap, ◌∙◌, String, [], ◌∷◌, ◌++◌, arith,
  All, any_sound, any_complete, Bool-cases, Option-cases, or-eq-false,
}
use ai_support_agent_cli.Common.Text.{
  Text, codes, is_word, is_space, strip_prefix, strip_prefix-append, strip_prefix_sound, skip,
  skip_split,
}
use ai_support_agent_cli.Guard.Yaml.{Yaml, str, seq, mapping, Items, cons, Fields, field}
use ai_support_agent_cli.Guard.Scan.{
  opens_call, plugin_names, call_here, scan_call, has_plugin_call, contains_lookup,
  contains_lookup_items, contains_lookup_fields, last_word,
}

-- A call of a plugin by name: spaces may stand before the bracket.
pub record IsCall (name t : Text) : Type 0 where
  pub spaces : Text
  pub after : Text
  pub blank : All (λ c. is_space c ≡ true) spaces
  pub shape : t ≡ name ++ (spaces ++ b'(' ∷ after)

skip-run :
    (run after : Text)
    → All (λ c. is_space c ≡ true) run
    → skip is_space (run ++ b'(' ∷ after) ≡ b'(' ∷ after
unfolding is_space
skip-run [] after h = refl
skip-run (c ∷ run) after (h, hs) = rw h (skip-run run after hs)

opens_call_sound : (name t : Text) → opens_call (strip_prefix name t) ≡ true → IsCall name t
opens_call_sound name t h = elim (Option-cases (strip_prefix name t)) [
  | inl e ↦ cc (rw (e, opens_call) at h)
  | inr (r, e) ↦
      let (run, blank, split) = skip_split is_space r in
      elim (Option-cases (strip_prefix (b'(' ∷ []) (skip is_space r))) [
        | inl e' ↦ cc (rw (e', opens_call) at (rw (e, opens_call) at h))
        | inr (after, e') ↦ record {
          spaces = run;
          after = after;
          blank = blank;
          shape =
              strip_prefix_sound name t e
              ∙ ap (λ (s : Text). name ++ s)
                  (split
                    ∙ ap (λ (s : Text). run ++ s)
                        (strip_prefix_sound (b'(' ∷ []) (skip is_space r) e'));
        }
      ]
]

opens_call_complete : (name t : Text) → IsCall name t → opens_call (strip_prefix name t) ≡ true
opens_call_complete name t c =
    rw
      (
        c.shape,
        strip_prefix-append name (c.spaces ++ b'(' ∷ c.after),
        skip-run c.spaces c.after c.blank,
      )
      refl

-- A call of one of the plugins at the head of the text.
abbrev pub CallHere : Text → Type 0
CallHere t = (name : Text) × Memᴰ name plugin_names × IsCall name t

call_here_sound : (t : Text) → call_here t ≡ true → CallHere t
unfolding call_here
call_here_sound t h =
    let (name, known, e) = any_sound (λ n. opens_call (strip_prefix n t)) plugin_names h in
    (name, known, opens_call_sound name t e)

call_here_complete : (t : Text) → CallHere t → call_here t ≡ true
unfolding call_here
call_here_complete t (name, known, c) =
    any_complete (λ n. opens_call (strip_prefix n t)) plugin_names name known
      (opens_call_complete name t c)

-- A plugin's name that no character of `\w` precedes, with a bracket after it.
pub record PluginCall (prev : Bool) (t : Text) : Type 0 where
  pub before : Text
  pub rest : Text
  pub split : t ≡ before ++ rest
  pub fresh : last_word prev before ≡ false
  pub call : CallHere rest

-- The names of the plugins are not empty.
not-CallHere-nil : ¬ CallHere []
not-CallHere-nil h = cc (call_here_complete [] h, no_call)
  where
    no_call : call_here [] ≡ false
    no_call = unfold call_here is_space in refl

scan_call_sound : (prev : Bool) (t : Text) → scan_call prev t ≡ true → PluginCall prev t
unfolding scan_call
scan_call_sound prev [] h = cc
scan_call_sound prev (c ∷ t) h = elim (Bool-cases (not prev && call_here (c ∷ t))) [
  | inl here ↦ record {
    before = [];
    rest = c ∷ t;
    split = refl;
    fresh = ground arith;
    call = call_here_sound (c ∷ t) (ground arith);
  }
  | inr later ↦
      let p = scan_call_sound (is_word c) t (rw later at h) in
      record {
        before = c ∷ p.before;
        rest = p.rest;
        split = ap (λ (s : Text). c ∷ s) p.split;
        fresh = p.fresh;
        call = p.call;
      }
]

scan_call_complete :
    (before : Text) (prev : Bool) (rest : Text)
    → last_word prev before ≡ false
    → CallHere rest
    → scan_call prev (before ++ rest) ≡ true
unfolding scan_call
scan_call_complete [] prev [] fresh call = absurd (not-CallHere-nil call)
scan_call_complete [] prev (c ∷ rest) fresh call =
    rw (fresh, call_here_complete (c ∷ rest) call) refl
scan_call_complete (c ∷ before) prev rest fresh call =
    rw (scan_call_complete before (is_word c) rest fresh call) (ground arith)

-- The scan of a text finds exactly the calls that the regular expression describes: one of the
-- names `lookup`, `query` and `q`, with no character of `\w` right before it, and after it any
-- number of spaces and an opening bracket.
pub has_plugin_call_iff : (t : Text) → (has_plugin_call t ≡ true) ↔ PluginCall false t
unfolding has_plugin_call
has_plugin_call_iff t = (
  scan_call_sound false t,
  λ p. rw p.split (scan_call_complete p.before false p.rest p.fresh p.call),
)

-- The strings that stand somewhere inside a value, as values of its mappings or in its lists.
mutual
  pub data Holds (s : String) : Yaml → Type 0 where
    here : Holds s (str s)
    in_seq : {ys : Items} → HoldsItem s ys → Holds s (seq ys)
    in_mapping : {fs : Fields} → HoldsField s fs → Holds s (mapping fs)

  pub data HoldsItem (s : String) : Items → Type 0 where
    first : {y : Yaml} {ys : Items} → Holds s y → HoldsItem s (cons y ys)
    later : {y : Yaml} {ys : Items} → HoldsItem s ys → HoldsItem s (cons y ys)

  pub data HoldsField (s : String) : Fields → Type 0 where
    value_first : {k : String} {y : Yaml} {fs : Fields} → Holds s y → HoldsField s (field k y fs)
    value_later :
        {k : String} {y : Yaml} {fs : Fields} → HoldsField s fs → HoldsField s (field k y fs)

mutual
  unfolding contains_lookup

  clean_value :
      {s : String} {y : Yaml}
      → Holds s y
      → contains_lookup y ≡ false
      → has_plugin_call (codes s) ≡ false
  clean_value here h = h
  clean_value (in_seq i) h = clean_item i h
  clean_value (in_mapping i) h = clean_field i h

  clean_item :
      {s : String} {ys : Items}
      → HoldsItem s ys
      → contains_lookup_items ys ≡ false
      → has_plugin_call (codes s) ≡ false
  clean_item (HoldsItem.first i) h = clean_value i (or-eq-false h).0
  clean_item (HoldsItem.later i) h = clean_item i (or-eq-false h).1

  clean_field :
      {s : String} {fs : Fields}
      → HoldsField s fs
      → contains_lookup_fields fs ≡ false
      → has_plugin_call (codes s) ≡ false
  clean_field (HoldsField.value_first i) h = clean_value i (or-eq-false h).0
  clean_field (HoldsField.value_later i) h = clean_field i (or-eq-false h).1

-- No string inside a value that passes `containsLookupPluginReference` holds a plugin call.
pub clean_string :
    {s : String} {y : Yaml} → Holds s y → contains_lookup y ≡ false → ¬ PluginCall false (codes s)
clean_string i h p = cc (clean_value i h, (has_plugin_call_iff _).1 p)
