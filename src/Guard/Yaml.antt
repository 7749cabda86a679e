-- ===== src/Guard/Yaml.antt =====
-- The values that `load` of js-yaml hands to server-setup/ansible-task-guard.ts, and what the guard
-- reads of them: utils/is-plain-object.ts, `Object.keys`, property access and `JSON.stringify`.
use ai_support_agent_cli.Common.{
  ℕ, ◌+◌, ◌-◌, ◌/◌, ◌%◌, Bool, true, false, Option, none, some, String, List, [], ◌∷◌, ◌++◌,
  if◌then◌else◌, ltb, ◌==◌,
}
use ai_support_agent_cli.Common.Text.{Text, codes}

-- A number carries the text that `JSON.stringify` gives it, and so does a timestamp, which is a
-- `Date`: an object with no keys of its own. Mappings have distinct keys (js-yaml refuses others).
mutual
  pub data Yaml : Type 0 where
    null : Yaml
    bool : Bool → Yaml
    num : String → Yaml
    str : String → Yaml
    timestamp : String → Yaml
    seq : Items → Yaml
    mapping : Fields → Yaml

  pub data Items : Type 0 where
    nil : Items
    cons : Yaml → Items → Items

  pub data Fields : Type 0 where
    end : Fields
    field : String → Yaml → Fields → Fields

abbrev pub items : Items → List Yaml
items nil = []
items (cons y ys) = y ∷ items ys

-- `Object.entries`
abbrev pub entries : Fields → List (String × Yaml)
entries end = []
entries (field k y fs) = (k, y) ∷ entries fs

-- A task, or another object that is indexed by keys.
abbrev pub Dict : Type 0
Dict = List (String × Yaml)

-- `isPlainObject(value)`, with the object where it is one.
abbrev pub plain_object : Yaml → Option Dict
plain_object (mapping fs) = some (entries fs)
plain_object (timestamp s) = some []
plain_object _ = none

-- `Object.keys`
abbrev pub keys : Dict → List String
keys [] = []
keys ((k, y) ∷ d) = k ∷ keys d

-- `typeof value === 'string'`, with the string where it is one.
abbrev pub as_string : Option Yaml → Option String
as_string (some (str s)) = some s
as_string _ = none

-- `isPlainObject(value)` of a property that may be `undefined`.
abbrev pub as_object : Option Yaml → Option Dict
as_object none = none
as_object (some y) = plain_object y

hex_digit : ℕ → ℕ
hex_digit n = if ltb n 10 then b'0' + n else b'a' + (n - 10)

-- One character inside a JSON string.
escape : ℕ → Text
unfolding hex_digit
escape c =
    if c == b'"'
    then codes "\\\""
    else if c == 92
    then codes "\\\\"
    else if c == 8
    then codes "\\b"
    else if c == 9
    then codes "\\t"
    else if c == 10
    then codes "\\n"
    else if c == 12
    then codes "\\f"
    else if c == 13
    then codes "\\r"
    else if ltb c 32
    then codes "\\u00" ++ hex_digit (c / 16) ∷ hex_digit (c % 16) ∷ []
    else c ∷ []

escape_all : Text → Text
escape_all [] = []
escape_all (c ∷ t) = escape c ++ escape_all t

quote : String → Text
unfolding escape escape_all
quote s = b'"' ∷ escape_all (codes s) ++ b'"' ∷ []

-- `JSON.stringify`, with no white space.
unfoldable mutual
  unfolding quote

  pub stringify : Yaml → Text
  stringify null = codes "null"
  stringify (bool true) = codes "true"
  stringify (bool false) = codes "false"
  stringify (num text) = codes text
  stringify (str s) = quote s
  stringify (timestamp text) = quote text
  stringify (seq ys) = b'[' ∷ stringify_items ys
  stringify (mapping fs) = b'{' ∷ stringify_fields fs

  pub stringify_items : Items → Text
  stringify_items nil = b']' ∷ []
  stringify_items (cons y nil) = stringify y ++ b']' ∷ []
  stringify_items (cons y (cons z zs)) = stringify y ++ b',' ∷ stringify_items (cons z zs)

  pub stringify_fields : Fields → Text
  stringify_fields end = b'}' ∷ []
  stringify_fields (field k y end) = quote k ++ b':' ∷ stringify y ++ b'}' ∷ []
  stringify_fields (field k y (field j z fs)) =
      quote k ++ b':' ∷ stringify y ++ b',' ∷ stringify_fields (field j z fs)

members : Dict → Text
members [] = b'}' ∷ []
members ((k, y) ∷ []) = quote k ++ b':' ∷ stringify y ++ b'}' ∷ []
members ((k, y) ∷ d) = quote k ++ b':' ∷ stringify y ++ b',' ∷ members d

-- `JSON.stringify` of an object.
unfoldable pub stringify_dict : Dict → Text
unfolding members quote stringify
stringify_dict d = b'{' ∷ members d
