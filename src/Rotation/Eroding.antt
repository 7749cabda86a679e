-- ===== src/Rotation/Eroding.antt =====
-- log-rotator.ts, `rotate`: what happens to the old generations while the last rename keeps failing.
use ai_support_agent_cli.Common.{
  ℕ, zero, suc, ◌+◌, ◌≤◌, ◌<◌, ◌≡◌, refl, ap, ◌∙◌, Bool, true, false, ◌&&◌, Option, none, some,
  List, [], ◌∷◌, ◌++◌, arith, ltb, ◌==◌, if_elim, length, All,
}
use ai_support_agent_cli.Rotation.{
  Faults, Writer, content, set_generation, shift, after_shift, rotate, ensure_open, after_rotate,
  write, write_all,
}
use ai_support_agent_cli.Rotation.Kept.{older, history}
use ai_support_agent_cli.Rotation.Shifting.{Shifted, shift-Shifted}

-- The rename of the active file faults, and nothing else does.
abbrev pub stuck : Faults
stuck = record { fails = λ i. i == 1; stat_fails = false }

-- The first `k` of the generations up to `most` are not there.
abbrev pub Emptied : ℕ → ℕ → (ℕ → Option (List ℕ)) → Type 0
Emptied k most generation = (j : ℕ) → j < k → j < most → generation (suc j) ≡ none

Shifted-Emptied :
    (n k : ℕ) (generation after : ℕ → Option (List ℕ))
    → Shifted (suc n) generation after
    → Emptied k (suc n) generation
    → Emptied (suc k) (suc n) after
Shifted-Emptied n k generation after (first, below, above) h zero less most = first
Shifted-Emptied n k generation after (first, below, above) h (suc j) less most =
    below j (omega arith) ∙ h j (omega arith) (omega arith)

-- A writer that waits for the rename: the file is closed, and too large for the next chunk.
abbrev Waits : List ℕ → Writer → Type 0
Waits bytes w = (w.active ≡ some bytes) × (w.is_open ≡ false)

cleared-Emptied :
    (n k : ℕ) (generation : ℕ → Option (List ℕ))
    → Emptied k (suc n) generation
    → Emptied k (suc n) (set_generation (suc n) none generation)
cleared-Emptied n k generation h j less most =
    if_elim (λ (file : Option (List ℕ)). file ≡ none) (suc n == suc j) _ _ (λ _. refl)
      (λ _. h j less most)

-- A failed attempt: the active file is as it was, and one more generation is not there.
abbrev Failed : ℕ → ℕ → List ℕ → Bool × Writer → Type 0
Failed k n bytes r = (r.0 ≡ false) × Waits bytes r.1 × Emptied (suc k) (suc n) r.1.generation

module _ (n : ℕ) (bytes : List ℕ) where
  after_shift-stuck :
      (w : Writer) (r : Bool × (ℕ → Option (List ℕ)))
      → r.0 ≡ true
      → Waits bytes w
      → Waits bytes (after_shift stuck w r).1
        × ((after_shift stuck w r).0 ≡ false)
        × ((after_shift stuck w r).1.generation ≡ r.1)
  after_shift-stuck w (true, generation) ends (active, closed) =
      rw active ((refl, closed), refl, refl)
  after_shift-stuck w (false, generation) ends waits = cc

  rotate-Failed :
      (k : ℕ) (w : Writer)
      → w.active ≡ some bytes
      → Emptied k (suc n) w.generation
      → Failed k n bytes (rotate stuck (suc n) w)
  unfolding rotate
  rotate-Failed k w active empty =
      let cleared = set_generation (suc n) none w.generation in
      let (ends, places) = shift-Shifted stuck n cleared (λ j. ground arith) (rw same refl) in
      let (waits, failed, generations) =
        after_shift-stuck (record w { is_open = false }) (shift stuck (suc n) cleared) ends
          (active, refl) in
      (
        failed,
        waits,
        rw generations (
            Shifted-Emptied n k cleared (shift stuck (suc n) cleared).1 places
              (cleared-Emptied n k w.generation empty)),
      )
    where
      same : (suc n == suc n) ≡ true
      same = ground arith

  after_rotate-Failed :
      (k : ℕ) (chunk : List ℕ) (r : Bool × Writer)
      → Failed k n bytes r
      → Failed k n bytes (after_rotate stuck chunk r)
  after_rotate-Failed k chunk (true, w) (failed, waits, empty) = cc
  after_rotate-Failed k chunk (false, w) h = h

  write-Failed :
      (k max_bytes : ℕ) (chunk : List ℕ) (w : Writer)
      → 0 < length bytes
      → 0 < length chunk
      → max_bytes < length bytes + length chunk
      → Waits bytes w
      → Emptied k (suc n) w.generation
      → Failed k n bytes (write stuck max_bytes (suc n) chunk w)
  unfolding write ensure_open
  write-Failed k max_bytes [] w filled some_chunk long waits empty = absurd (omega arith)
  write-Failed k max_bytes (c ∷ chunk) w filled some_chunk long (active, closed) empty =
      rw (closed, active, rotates)
        (after_rotate-Failed k (c ∷ chunk) (rotate stuck (suc n) opened)
          (rotate-Failed k opened refl empty))
    where
      opened : Writer
      opened = record {
        active = some bytes;
        generation = w.generation;
        is_open = true;
        current_size = length bytes;
      }

      rotates : (ltb 0 (length bytes) && ltb max_bytes (length bytes + length (c ∷ chunk))) ≡ true
      rotates = ground arith

  write_all-Failed :
      (k max_bytes : ℕ) (chunks : List (List ℕ)) (w : Writer)
      → 0 < length bytes
      → All (λ chunk. (0 < length chunk) × (max_bytes < length bytes + length chunk)) chunks
      → Waits bytes w
      → Emptied k (suc n) w.generation
      → Waits bytes (write_all (λ i. stuck) max_bytes (suc n) chunks w)
        × Emptied
            (length chunks + k)
            (suc n)
            (write_all (λ i. stuck) max_bytes (suc n) chunks w).generation
  unfolding write_all
  write_all-Failed k max_bytes [] w filled long waits empty =
      (waits, λ j less most. empty j (omega arith) most)
  write_all-Failed k max_bytes (chunk ∷ chunks) w filled ((some_chunk, long), rest) waits empty =
      let (failed, waits', empty') =
        write-Failed k max_bytes chunk w filled some_chunk long waits empty in
      let (waiting, emptied) =
        write_all-Failed (suc k) max_bytes chunks (write stuck max_bytes (suc n) chunk w).1 filled
          rest waits' empty' in
      (waiting, λ j less most. emptied j (omega arith) most)

older-none :
    (k n : ℕ) (generation : ℕ → Option (List ℕ))
    → Emptied k n generation
    → (m : ℕ) → m ≤ n
    → m ≤ k
    → older m generation ≡ []
older-none k n generation empty zero h l = refl
older-none k n generation empty (suc m) h l =
    rw
      (
        empty m (omega arith) (omega arith),
        older-none k n generation empty m (omega arith) (omega arith),
      )
      refl

-- While only the rename of the active file faults, and that file is too full for each of the chunks, a
-- closed writer loses the old generations: after as many writes as generations are kept, what is on disk
-- is the active file, as it was, and nothing else.
pub failing_rename-erodes :
    (max_bytes n : ℕ) (bytes : List ℕ) (chunks : List (List ℕ)) (w : Writer)
    → 0 < length bytes
    → All (λ chunk. (0 < length chunk) × (max_bytes < length bytes + length chunk)) chunks
    → w.active ≡ some bytes
    → w.is_open ≡ false
    → suc n ≤ length chunks
    → history (suc n) (write_all (λ i. stuck) max_bytes (suc n) chunks w) ≡ bytes
failing_rename-erodes max_bytes n bytes chunks w filled long active closed enough =
    let ((active', closed'), empty) =
      write_all-Failed n bytes 0 max_bytes chunks w filled long (active, closed)
        (λ j less most. absurd (omega arith)) in
    let gone =
      older-none (length chunks + 0) (suc n)
        (write_all (λ i. stuck) max_bytes (suc n) chunks w).generation empty (suc n) (omega arith)
        (omega arith) in
    ap (λ o. o ++ content (write_all (λ i. stuck) max_bytes (suc n) chunks w).active) gone
    ∙ ap content active'
