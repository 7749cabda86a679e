-- ===== src/Guard/Scan.antt =====
-- The two regular expressions of server-setup/ansible-task-guard.ts that scan text, as the matchers
-- that they describe: LOOKUP_PLUGIN_PATTERN, and the pattern of `referencesSecretVar`.
use ai_support_agent_cli.Common.{
  ℕ, Bool, false, not, ◌&&◌, ◌||◌, Option, none, some, String, List, [], ◌∷◌, ◌==◌, if◌then◌else◌,
  any, is_empty,
}
use ai_support_agent_cli.Common.Text.{
  Text, codes, is_word, is_space, strip_prefix, skip, starts_with,
}
use ai_support_agent_cli.Guard.Yaml.{
  Yaml, null, bool, num, str, timestamp, seq, mapping, Items, nil, cons, Fields, end, field, Dict,
  stringify_dict,
}

-- `\s*\(` after a name that was found.
abbrev pub opens_call : Option Text → Bool
opens_call none = false
opens_call (some rest) = starts_with (skip is_space rest) (b'(' ∷ [])

abbrev pub plugin_names : List Text
plugin_names = codes "lookup" ∷ codes "query" ∷ codes "q" ∷ []

-- `(lookup|query|q)\s*\(` at the head of the text
unfoldable pub call_here : Text → Bool
unfolding is_space
call_here t = any (λ name. opens_call (strip_prefix name t)) plugin_names

-- The search, where `prev` says whether the character before is one of `\w`. The names begin with
-- such a character, so `\b` before them asks for the opposite.
unfoldable pub scan_call : Bool → Text → Bool
unfolding is_word
scan_call prev [] = false
scan_call prev (c ∷ t) = not prev && call_here (c ∷ t) || scan_call (is_word c) t

-- `LOOKUP_PLUGIN_PATTERN.test(text)`
unfoldable pub has_plugin_call : Text → Bool
unfolding scan_call call_here
has_plugin_call t = scan_call false t

unfoldable mutual
  unfolding has_plugin_call

  pub contains_lookup : Yaml → Bool
  contains_lookup null = false
  contains_lookup (bool b) = false
  contains_lookup (num t) = false
  contains_lookup (str s) = has_plugin_call (codes s)
  contains_lookup (timestamp t) = false
  contains_lookup (seq ys) = contains_lookup_items ys
  contains_lookup (mapping fs) = contains_lookup_fields fs

  pub contains_lookup_items : Items → Bool
  contains_lookup_items nil = false
  contains_lookup_items (cons y ys) = contains_lookup y || contains_lookup_items ys

  pub contains_lookup_fields : Fields → Bool
  contains_lookup_fields end = false
  contains_lookup_fields (field k y fs) = contains_lookup y || contains_lookup_fields fs

-- `containsLookupPluginReference` of a task.
abbrev pub contains_lookup_dict : Dict → Bool
contains_lookup_dict d = any (λ e. contains_lookup e.1) d

-- Whether the text starts with a character of `\w`.
abbrev pub word_head : Text → Bool
word_head [] = false
word_head (c ∷ t) = is_word c

-- `\b` between a character, of `\w` or not, and the text.
abbrev pub boundary : Bool → Text → Bool
boundary prev t = if prev then not (word_head t) else word_head t

-- Whether the last character of a text is one of `\w`, where `prev` says so of the one before it.
abbrev pub last_word : Bool → Text → Bool
last_word prev [] = prev
last_word prev (c ∷ t) = last_word (is_word c) t

unfoldable pub not_brace : ℕ → Bool
not_brace c = not (c == b'}')

-- `\b[^}]*\}\}` after the name.
unfoldable pub closes : Bool → Option Text → Bool
unfolding not_brace
closes prev none = false
closes prev (some rest) = boundary prev rest && starts_with (skip not_brace rest) (b'}' ∷ b'}' ∷ [])

-- `[^}]*\bNAME\b[^}]*\}\}`, by the number of characters that the first run takes.
unfoldable pub inside : Text → Bool → Text → Bool
unfolding closes not_brace is_word
inside name prev [] = boundary prev [] && closes (last_word prev name) (strip_prefix name [])
inside name prev (c ∷ t) =
    boundary prev (c ∷ t) && closes (last_word prev name) (strip_prefix name (c ∷ t))
    || not_brace c && inside name (is_word c) t

unfoldable pub opens : Text → Option Text → Bool
unfolding inside
opens name none = false
opens name (some rest) = inside name false rest

-- `pattern.test(text)` for the pattern `\{\{[^}]*\bNAME\b[^}]*\}\}`.
unfoldable pub mentions : Text → Text → Bool
unfolding inside closes opens not_brace is_word
mentions name [] = false
mentions name (c ∷ t) = opens name (strip_prefix (b'{' ∷ b'{' ∷ []) (c ∷ t)) || mentions name t

unfoldable pub references_secret_var : Dict → List String → Bool
unfolding mentions stringify_dict
references_secret_var task names =
    not (is_empty names) && any (λ name. mentions (codes name) (stringify_dict task)) names
