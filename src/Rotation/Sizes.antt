-- ===== src/Rotation/Sizes.antt =====
-- log-rotator.ts: how large the files get, whichever operations on files fail.
use ai_support_agent_cli.Common.{
  ℕ, zero, suc, ◌+◌, ◌≤◌, ◌≡◌, refl, ap, inl, inr, Bool, true, false, ◌&&◌, Option, none, some,
  List, [], ◌∷◌, arith, ltb, ◌==◌, Bool-cases, if_elim, is_some, length, is_empty, All,
  length-append,
}
use ai_support_agent_cli.Rotation.{
  Faults, Writer, content, set_generation, move_file, move, shift, promote_file, promote,
  after_shift, rotate, ensure_open, append, after_rotate, write, write_all,
}

abbrev pub Small : ℕ → Option (List ℕ) → Type 0
Small limit file = length (content file) ≤ limit

-- Every file is small, and the size that is kept of an open file is its size.
abbrev pub Fits : ℕ → Writer → Type 0
Fits limit w =
    Small limit w.active
    × ((j : ℕ) → Small limit (w.generation j))
    × (w.is_open ≡ true → w.current_size ≡ length (content w.active))

module _ (limit : ℕ) where
  abbrev Smalls : (ℕ → Option (List ℕ)) → Type 0
  Smalls generation = (j : ℕ) → Small limit (generation j)

  set_generation-Smalls :
      (i : ℕ) (file : Option (List ℕ)) (generation : ℕ → Option (List ℕ))
      → Small limit file
      → Smalls generation
      → Smalls (set_generation i file generation)
  set_generation-Smalls i file generation small h j =
      if_elim (Small limit) (i == j) _ _ (λ _. small) (λ _. h j)

  move-Smalls :
      (src dst : ℕ) (generation : ℕ → Option (List ℕ))
      → Smalls generation
      → Smalls (move src dst generation)
  move-Smalls src dst generation h = go (generation src) (h src)
    where
      go : (file : Option (List ℕ)) → Small limit file → Smalls (move_file file src dst generation)
      go none small = h
      go (some bytes) small =
          set_generation-Smalls dst (some bytes) (set_generation src none generation) small
            (set_generation-Smalls src none generation (omega arith) h)

  module _ (faults : Faults) (measured : faults.stat_fails ≡ false) where
    shift-Smalls :
        (i : ℕ) (generation : ℕ → Option (List ℕ))
        → Smalls generation
        → Smalls (shift faults i generation).1
    unfolding shift
    shift-Smalls zero generation h = h
    shift-Smalls (suc zero) generation h = h
    shift-Smalls (suc (suc i)) generation h =
        if_elim (λ (r : Bool × (ℕ → Option (List ℕ))). Smalls r.1)
          (faults.fails (suc (suc i)) && is_some (generation (suc i))) _ _ (λ _. h)
          (λ _.
            shift-Smalls (suc i) (move (suc i) (suc (suc i)) generation)
              (move-Smalls (suc i) (suc (suc i)) generation h))

    -- A rotation leaves small files, and no bytes in the active one if it succeeds; the file is closed.
    abbrev Rotated : Bool × Writer → Type 0
    Rotated (ends, w) =
        Small limit w.active
        × Smalls w.generation
        × (w.is_open ≡ false)
        × (ends ≡ true → content w.active ≡ [])

    promote-Rotated :
        (w : Writer)
        → Small limit w.active
        → Smalls w.generation
        → w.is_open ≡ false
        → Rotated (promote faults w)
    promote-Rotated w small h closed = go w.active refl small
      where
        go :
            (file : Option (List ℕ))
            → w.active ≡ file
            → Small limit file
            → Rotated (promote_file faults file w)
        go none e s = (small, h, closed, λ _. ap content e)
        go (some bytes) e s =
            if_elim Rotated (faults.fails 1) _ _ (λ _. (small, h, closed, λ k. cc))
              (λ _. (
                omega arith,
                set_generation-Smalls 1 (some bytes) w.generation s h,
                closed,
                λ _. refl,
              ))

    after_shift-Rotated :
        (w : Writer) (r : Bool × (ℕ → Option (List ℕ)))
        → Small limit w.active
        → w.is_open ≡ false
        → Smalls r.1
        → Rotated (after_shift faults w r)
    after_shift-Rotated w (true, generation) small closed h =
        promote-Rotated (record w { generation = generation }) small h closed
    after_shift-Rotated w (false, generation) small closed h = (small, h, closed, λ k. cc)

    rotate-Rotated : (n : ℕ) (w : Writer) → Fits limit w → Rotated (rotate faults n w)
    unfolding rotate
    rotate-Rotated zero w (small, h, size) =
        if_elim Rotated (faults.fails 0 && is_some w.active) _ _ (λ _. (small, h, refl, λ k. cc))
          (λ _. (omega arith, h, refl, λ _. refl))
    rotate-Rotated (suc n) w (small, h, size) =
        if_elim Rotated (faults.fails 0 && is_some (w.generation (suc n))) _ _
          (λ _. (small, h, refl, λ k. cc))
          (λ _.
            after_shift-Rotated (record w { is_open = false })
              (shift faults (suc n) (set_generation (suc n) none w.generation)) small refl
              (shift-Smalls (suc n) (set_generation (suc n) none w.generation)
                (set_generation-Smalls (suc n) none w.generation (omega arith) h)))

    ensure_open-Fits :
        (w : Writer)
        → Fits limit w
        → Fits limit (ensure_open faults w)
          × ((ensure_open faults w).current_size ≡ length (content (ensure_open faults w).active))
    unfolding ensure_open
    ensure_open-Fits w (small, h, size) = elim (Bool-cases w.is_open) [
      | inl e ↦ rw e ((small, h, λ _. size e), size e)
      | inr e ↦ rw (e, measured) ((small, h, λ _. refl), refl)
    ]

    after_rotate-Fits :
        (bytes : List ℕ) (r : Bool × Writer)
        → length bytes ≤ limit
        → Rotated r
        → Fits limit (after_rotate faults bytes r).1
    unfolding ensure_open
    after_rotate-Fits bytes (false, w) most (small, h, closed, emptied) = (small, h, λ e. cc)
    after_rotate-Fits bytes (true, w) most (small, h, closed, emptied) =
        rw (closed, emptied refl, measured) (most, h, λ _. omega arith)

    append-Fits :
        (max_bytes : ℕ) (bytes : List ℕ) (w : Writer)
        → max_bytes ≤ limit
        → length bytes ≤ limit
        → Fits limit w
        → w.current_size ≡ length (content w.active)
        → (ltb 0 w.current_size && ltb max_bytes (w.current_size + length bytes)) ≡ false
        → Fits limit (append faults bytes w)
    append-Fits max_bytes bytes w room most (small, h, sized) size e =
        let long = length-append (content w.active) bytes in
        (ground (arith, long, size), h, λ _. omega (arith, long, size))

    write-Fits :
        (max_bytes n : ℕ) (bytes : List ℕ) (w : Writer)
        → max_bytes ≤ limit
        → length bytes ≤ limit
        → Fits limit w
        → Fits limit (write faults max_bytes n bytes w).1
    unfolding write
    write-Fits max_bytes n bytes w room most fits =
        if_elim (λ (r : Bool × Writer). Fits limit r.1) (is_empty bytes) _ _ (λ _. fits)
          (λ _.
            if_elim (λ (r : Bool × Writer). Fits limit r.1)
              (ltb 0 (ensure_open faults w).current_size
                && ltb max_bytes ((ensure_open faults w).current_size + length bytes))
              _ _
              (λ _.
                after_rotate-Fits bytes (rotate faults n (ensure_open faults w)) most
                  (rotate-Rotated n (ensure_open faults w) (ensure_open-Fits w fits).0))
              (λ e.
                append-Fits max_bytes bytes (ensure_open faults w) room most
                  (ensure_open-Fits w fits).0 (ensure_open-Fits w fits).1 e))

-- If no chunk is larger than the limit, and neither is the size from which on the files are rotated, no
-- file on disk ever grows past the limit, and the writer knows the size of the file it has open: whichever
-- removals and renames fail, and when, as long as the size of a file that is opened can be read.
pub write_all-Fits :
    (limit : ℕ) (faults : ℕ → Faults) (max_bytes n : ℕ) (chunks : List (List ℕ)) (w : Writer)
    → ((i : ℕ) → (faults i).stat_fails ≡ false)
    → max_bytes ≤ limit
    → All (λ bytes. length bytes ≤ limit) chunks
    → Fits limit w
    → Fits limit (write_all faults max_bytes n chunks w)
unfolding write_all
write_all-Fits limit faults max_bytes n [] w measured room most fits = fits
write_all-Fits limit faults max_bytes n (bytes ∷ chunks) w measured room (most, rest) fits =
    write_all-Fits limit (λ i. faults (suc i)) max_bytes n chunks
      (write (faults 0) max_bytes n bytes w).1 (λ i. measured (suc i)) room rest
      (write-Fits limit (faults 0) (measured 0) max_bytes n bytes w room most fits)
