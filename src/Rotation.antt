-- ===== src/Rotation.antt =====
-- log-rotator.ts: the writer of a log file that is rotated by its size.
mod Shifting
pub mod Kept
pub mod Sizes
pub mod Eroding
mod Tests
use ai_support_agent_cli.Common.{
  ℕ, zero, suc, ◌+◌, ◌-◌, ◌*◌, ◌≤◌, ◌<◌, min, max, String, ◌≡◌, ◌≢◌, refl, sym, ap, ◌∙◌, ◌⊎◌, inl,
  inr, Bool, true, false, not, ◌&&◌, ◌||◌, Option, none, some, List, [], ◌∷◌, ◌++◌, map, arith,
  eq_iff, eq_refl, ltb, leb, ◌==◌, str_eq, if◌then◌else◌, Bool-cases, if_elim, Option-cases,
  is_some, get_or_else, some-inj, str_eq-ne, str_eq_sym, and-eq-true, or-eq-false, lookup, insert,
  remove, has, lookup-insert, lookup-remove, lookup-insert_self, lookup-remove_self, member, add,
  erase, length, is_empty, any, all, filter, All, length-append,
}

abbrev pub default_max_bytes : ℕ
default_max_bytes = 5 * 1024 * 1024

abbrev pub default_max_files : ℕ
default_max_files = 5

-- The contents of files are lists of bytes. `active` is the file at the path, `generation i` the one at
-- `<path>.i`; `none` is a file that is not there. `is_open` is whether `fd` is not null.
pub record Writer : Type 0 where
  pub active : Option (List ℕ)
  pub generation : ℕ → Option (List ℕ)
  pub is_open : Bool
  pub current_size : ℕ

abbrev pub content : Option (List ℕ) → List ℕ
content none = []
content (some bytes) = bytes

abbrev pub set_generation : ℕ → Option (List ℕ) → (ℕ → Option (List ℕ)) → ℕ → Option (List ℕ)
set_generation i file generation j = if i == j then file else generation j

-- `renameSync` between two generations: a missing file is left alone.
abbrev pub move_file : Option (List ℕ) → ℕ → ℕ → (ℕ → Option (List ℕ)) → ℕ → Option (List ℕ)
move_file none src dst generation = generation
move_file (some bytes) src dst generation =
    set_generation dst (some bytes) (set_generation src none generation)

abbrev pub move : ℕ → ℕ → (ℕ → Option (List ℕ)) → ℕ → Option (List ℕ)
move src dst generation = move_file (generation src) src dst generation

-- What goes wrong in a write: `fails i` is whether the rename to generation `i` fails with another error
-- than ENOENT, and `fails 0` whether the removal of a file does; `stat_fails` is whether the size of a
-- file cannot be read when it is opened.
pub record Faults : Type 0 where
  pub fails : ℕ → Bool
  pub stat_fails : Bool

module _ (faults : Faults) where
  -- The loop over `i`, from `i` down to 2; whether it comes to its end, and the generations.
  unfoldable pub shift : ℕ → (ℕ → Option (List ℕ)) → Bool × (ℕ → Option (List ℕ))
  shift zero generation = (true, generation)
  shift (suc zero) generation = (true, generation)
  shift (suc (suc i)) generation =
      let rest = shift (suc i) (move (suc i) (suc (suc i)) generation) in
      if faults.fails (suc (suc i)) && is_some (generation (suc i))
      then (false, generation)
      else rest

  -- The last rename, of the active file.
  abbrev pub promote_file : Option (List ℕ) → Writer → Bool × Writer
  promote_file none w = (true, record w { current_size = 0 })
  promote_file (some bytes) w = if faults.fails 1 then (false, w) else (
    true,
    record w {
      active = none;
      generation = set_generation 1 (some bytes) w.generation;
      current_size = 0;
    },
  )

  abbrev pub promote : Writer → Bool × Writer
  promote w = promote_file w.active w

  abbrev pub after_shift : Writer → Bool × (ℕ → Option (List ℕ)) → Bool × Writer
  after_shift w (true, generation) = promote (record w { generation = generation })
  after_shift w (false, generation) = (false, record w { generation = generation })

  -- `rotate`, with whether it comes back without an error.
  unfoldable pub rotate : ℕ → Writer → Bool × Writer
  unfolding shift
  rotate zero w =
      let closed = record w { is_open = false } in
      if faults.fails 0 && is_some w.active
      then (false, closed)
      else (true, record closed { active = none; current_size = 0 })
  rotate (suc n) w =
      let closed = record w { is_open = false } in
      if faults.fails 0 && is_some (w.generation (suc n))
      then (false, closed)
      else after_shift closed (shift (suc n) (set_generation (suc n) none w.generation))

  unfoldable pub ensure_open : Writer → Writer
  ensure_open w = if w.is_open then w else record w {
    active = some (content w.active);
    is_open = true;
    current_size = if faults.stat_fails then 0 else length (content w.active);
  }

  abbrev pub append : List ℕ → Writer → Writer
  append bytes w = record w {
    active = some (content w.active ++ bytes);
    current_size = w.current_size + length bytes;
  }

  abbrev pub after_rotate : List ℕ → Bool × Writer → Bool × Writer
  after_rotate bytes (true, w) = (true, append bytes (ensure_open w))
  after_rotate bytes (false, w) = (false, w)

  -- `write`, with whether it comes back without an error.
  unfoldable pub write : ℕ → ℕ → List ℕ → Writer → Bool × Writer
  unfolding rotate ensure_open
  write max_bytes max_files bytes w =
      let opened = ensure_open w in
      if is_empty bytes
      then (true, w)
      else if ltb 0 opened.current_size && ltb max_bytes (opened.current_size + length bytes)
      then after_rotate bytes (rotate max_files opened)
      else (true, append bytes opened)

-- `close`
unfoldable pub close : Writer → Writer
close w = record w { is_open = false }

-- The writes of a list of chunks, each of which may fail in its own way.
unfoldable pub write_all : (ℕ → Faults) → ℕ → ℕ → List (List ℕ) → Writer → Writer
unfolding write
write_all fails max_bytes max_files [] w = w
write_all fails max_bytes max_files (bytes ∷ chunks) w =
    write_all (λ n. fails (suc n)) max_bytes max_files chunks
      (write (fails 0) max_bytes max_files bytes w).1
