-- ===== src/Progress.antt =====
-- server-setup/progress-tailer.ts: the reader of the file to which a running playbook appends events, one
-- JSON text to a line. Bytes are numbers below 256; `JSON.parse` is a parameter.
pub mod Utf8
mod Window
mod Lines
pub mod Chunks
pub mod Tailer
mod Tests
use ai_support_agent_cli.Common.{
  ℕ, ◌+◌, ◌-◌, ◌*◌, min, Bool, true, false, ◌&&◌, ◌||◌, Option, none, some, List, [], ◌∷◌, ◌++◌,
  String, if◌then◌else◌, ◌==◌, leb, str_eq, lookup, is_empty, length, take, drop, flat_map,
}
use ai_support_agent_cli.Common.Text.{Text, trim, split}
use ai_support_agent_cli.Progress.Utf8.{decode}

-- What `JSON.parse` gives. A number is known by its text.
mutual
  pub data Json : Type 0 where
    null : Json
    bool : Bool → Json
    num : String → Json
    str : String → Json
    arr : Items → Json
    obj : Fields → Json

  pub data Items : Type 0 where
    nil : Items
    cons : Json → Items → Items

  pub data Fields : Type 0 where
    end : Fields
    field : String → Json → Fields → Fields

abbrev pub property : String → Fields → Option Json
property key end = none
property key (field k value fs) = if str_eq k key then some value else property key fs

abbrev pub is_number : Option Json → Bool
is_number (some (num n)) = true
is_number _ = false

abbrev pub is_string : Option Json → Bool
is_string (some (str s)) = true
is_string _ = false

abbrev pub is_phase : Option Json → Bool
is_phase (some (str s)) = str_eq s "start" || str_eq s "end"
is_phase _ = false

-- An array is an object without these properties.
unfoldable pub is_progress_event : Json → Bool
is_progress_event (obj fs) =
    is_number (property "seq" fs)
    && is_phase (property "phase" fs)
    && is_string (property "name" fs)
is_progress_event _ = false

abbrev pub max_read_chunk_bytes : ℕ
max_read_chunk_bytes = 1024 * 1024

-- What the file system answers to one call of `read`: the size that `statSync` gives, and what stands in
-- the file when it is opened and read; `none` where the call throws.
pub record Look : Type 0 where
  pub size : Option ℕ
  pub content : Option (List ℕ)

pub record Reader : Type 0 where
  pub offset : ℕ
  pub leftover : List ℕ

abbrev pub fresh : Reader
fresh = record { offset = 0; leftover = [] }

-- The bytes before the last newline, and those after it.
abbrev pub extend : ℕ → List ℕ → Option (List ℕ × List ℕ) → Option (List ℕ × List ℕ)
extend b bs (some (whole, rest)) = some (b ∷ whole, rest)
extend b bs none = if b == 10 then some ([], bs) else none

unfoldable pub last_newline : List ℕ → Option (List ℕ × List ℕ)
last_newline [] = none
last_newline (b ∷ bs) = extend b bs (last_newline bs)

module _ (parse_json : Text → Option Json) where
  abbrev pub parsed : Option Json → List Json
  parsed none = []
  parsed (some value) = if is_progress_event value then value ∷ [] else []

  -- One line of the batch.
  unfoldable pub line_events : Text → List Json
  line_events line = if is_empty (trim line) then [] else parsed (parse_json line)

  unfoldable pub events_of : List ℕ → List Json
  unfolding decode
  events_of whole = flat_map line_events (split 10 (decode whole))

  -- `leftover` and the events, once the chunk is there.
  unfoldable pub consume : List ℕ → List Json × List ℕ
  unfolding last_newline events_of
  consume chunk = elim (last_newline chunk) [
    | none ↦ ([], chunk)
    | some (whole, rest) ↦ (events_of whole, rest)
  ]

  unfoldable pub take_in : List ℕ → Reader → Reader × List Json
  unfolding consume
  take_in [] r = (r, [])
  take_in (b ∷ bs) r =
      let (events, rest) = consume (r.leftover ++ (b ∷ bs)) in
      (record { offset = r.offset + length (b ∷ bs); leftover = rest }, events)

  unfoldable pub read : Look → Reader → Reader × List Json
  unfolding take_in
  read look r = elim look.size [
    | none ↦ (r, [])
    | some size ↦ if leb size r.offset then (r, []) else elim look.content [
      | none ↦ (r, [])
      | some content ↦
          take_in (take (min (size - r.offset) max_read_chunk_bytes) (drop r.offset content)) r
    ]
  ]
