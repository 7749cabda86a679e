-- ===== src/Rotation/Kept.antt =====
-- log-rotator.ts: what a write keeps. A rotation drops the oldest generation and nothing else.
use ai_support_agent_cli.Common.{
  ℕ, zero, suc, ◌+◌, ◌≤◌, ◌≡◌, refl, sym, ap, ◌∙◌, inl, inr, Bool, true, false, not, ◌&&◌, Option,
  none, some, List, [], ◌∷◌, ◌++◌, arith, ltb, ◌==◌, if◌then◌else◌, Bool-cases, if_elim, length,
  is_empty, append_assoc, append-nil,
}
use ai_support_agent_cli.Rotation.{
  Faults, Writer, content, set_generation, shift, promote_file, promote, after_shift, rotate,
  ensure_open, append, after_rotate, write,
}
use ai_support_agent_cli.Rotation.Shifting.{eq_nat, Shifted, shift-Shifted}

-- The generations from `n` down to 1, one after the other.
abbrev pub older : ℕ → (ℕ → Option (List ℕ)) → List ℕ
older zero generation = []
older (suc n) generation = content (generation (suc n)) ++ older n generation

-- All that is on disk, the oldest first.
abbrev pub history : ℕ → Writer → List ℕ
history n w = older n w.generation ++ content w.active

-- No operation on a file faults.
abbrev pub works : Faults
works = record { fails = λ i. false; stat_fails = false }

-- The write rotates the files.
abbrev pub rotates : ℕ → List ℕ → Writer → Bool
rotates max_bytes bytes w =
    not (is_empty bytes)
    && (ltb 0 (ensure_open works w).current_size
        && ltb max_bytes ((ensure_open works w).current_size + length bytes))

-- What a rotation drops: the generation that would become one too many.
abbrev pub oldest : ℕ → Writer → List ℕ
oldest zero w = content w.active
oldest (suc n) w = content (w.generation (suc n))

older-promoted :
    (n : ℕ) (generation after : ℕ → Option (List ℕ)) (bytes : List ℕ)
    → content (after 1) ≡ bytes
    → ((j : ℕ) → suc (suc j) ≤ suc n → after (suc (suc j)) ≡ generation (suc j))
    → (k : ℕ) → k ≤ n
    → older (suc k) after ≡ older k generation ++ bytes
older-promoted n generation after bytes first below zero h = append-nil (content (after 1)) ∙ first
older-promoted n generation after bytes first below (suc k) h =
    rw (below k (omega arith), older-promoted n generation after bytes first below k (omega arith))
      (sym (append_assoc (content (generation (suc k))) (older k generation) bytes))

-- The writer after the last rename, and after the loop.
promote-history :
    (n : ℕ) (w : Writer) (generation : ℕ → Option (List ℕ))
    → Shifted (suc n) generation w.generation
    → ((promote works w).0 ≡ true)
      × (history (suc n) (promote works w).1 ≡ older n generation ++ content w.active)
promote-history n w generation (first, below, above) = go w.active refl
  where
    go :
        (file : Option (List ℕ))
        → w.active ≡ file
        → ((promote_file works file w).0 ≡ true)
          × (history (suc n) (promote_file works file w).1 ≡ older n generation ++ content file)
    go none e = (
      refl,
      ap (λ f. older (suc n) w.generation ++ content f) e
          ∙ append-nil (older (suc n) w.generation)
          ∙ older-promoted n generation w.generation [] (ap content first) below n (omega arith),
    )
    go (some bytes) e = (
      refl,
      append-nil (older (suc n) (set_generation 1 (some bytes) w.generation))
          ∙ older-promoted n generation (set_generation 1 (some bytes) w.generation) bytes refl
              (λ j h. elim (Bool-cases (1 == suc (suc j))) [
                | inl same ↦ absurd (omega (arith, eq_nat 1 (suc (suc j)) same))
                | inr differ ↦ rw differ (below j h)
              ])
              n (omega arith),
    )

ensure_open-history : (n : ℕ) (w : Writer) → history n (ensure_open works w) ≡ history n w
unfolding ensure_open
ensure_open-history n w =
    if_elim (λ v. history n v ≡ history n w) w.is_open _ _ (λ _. refl) (λ _. refl)

append-history :
    (n : ℕ) (bytes : List ℕ) (w : Writer) → history n (append works bytes w) ≡ history n w ++ bytes
append-history n bytes w = sym (append_assoc (older n w.generation) (content w.active) bytes)

-- A generation that is none is no part of the history.
older-cleared :
    (n : ℕ) (generation : ℕ → Option (List ℕ)) (k : ℕ)
    → k ≤ n
    → older k (set_generation (suc n) none generation) ≡ older k generation
older-cleared n generation zero h = refl
older-cleared n generation (suc k) h = rw (off, older-cleared n generation k (omega arith)) refl
  where
    off : (suc n == suc k) ≡ false
    off = ground arith

after_shift-history :
    (n : ℕ) (w : Writer) (generation : ℕ → Option (List ℕ)) (r : Bool × (ℕ → Option (List ℕ)))
    → r.0 ≡ true
    → Shifted (suc n) generation r.1
    → ((after_shift works w r).0 ≡ true)
      × (history (suc n) (after_shift works w r).1 ≡ older n generation ++ content w.active)
after_shift-history n w generation (true, after) ends places =
    promote-history n (record w { generation = after }) generation places
after_shift-history n w generation (false, after) ends places = cc

rotate-history :
    (n : ℕ) (w : Writer)
    → ((rotate works n w).0 ≡ true) × (history n w ≡ oldest n w ++ history n (rotate works n w).1)
unfolding rotate
rotate-history zero w = (refl, sym (append-nil (content w.active)))
rotate-history (suc n) w =
    let cleared = set_generation (suc n) none w.generation in
    let (ends, places) = shift-Shifted works n cleared (λ j. refl) (rw same refl) in
    let (works_out, kept) =
      after_shift-history n (record w { is_open = false }) cleared (shift works (suc n) cleared)
        ends places in
    (
      works_out,
      append_assoc (content (w.generation (suc n))) (older n w.generation) (content w.active)
          ∙ ap (λ h. content (w.generation (suc n)) ++ h)
              (sym (
                kept
                ∙ ap (λ h. h ++ content w.active) (older-cleared n w.generation n (omega arith)))),
    )
  where
    same : (suc n == suc n) ≡ true
    same = ground arith

oldest-ensure_open : (n : ℕ) (w : Writer) → oldest n (ensure_open works w) ≡ oldest n w
unfolding ensure_open
oldest-ensure_open zero w =
    if_elim (λ (v : Writer). content v.active ≡ content w.active) w.is_open _ _ (λ _. refl)
      (λ _. refl)
oldest-ensure_open (suc n) w =
    if_elim (λ (v : Writer). content (v.generation (suc n)) ≡ content (w.generation (suc n)))
      w.is_open _ _ (λ _. refl) (λ _. refl)

after_rotate-history :
    (n : ℕ) (bytes : List ℕ) (r : Bool × Writer)
    → r.0 ≡ true
    → ((after_rotate works bytes r).0 ≡ true)
      × (history n (after_rotate works bytes r).1 ≡ history n r.1 ++ bytes)
after_rotate-history n bytes (true, w) ends = (
  refl,
  append-history n bytes (ensure_open works w) ∙ ap (λ h. h ++ bytes) (ensure_open-history n w),
)
after_rotate-history n bytes (false, w) ends = cc

-- Where no operation on a file faults, a write succeeds, and what is on disk afterwards, the oldest
-- generation first, is what was there and then the chunk, less the oldest generation where the files
-- are rotated. Nothing else is lost, repeated or moved.
pub write-keeps :
    (max_bytes n : ℕ) (bytes : List ℕ) (w : Writer)
    → ((write works max_bytes n bytes w).0 ≡ true)
      × (history n w ++ bytes
          ≡ (if rotates max_bytes bytes w then oldest n w else [])
            ++ history n (write works max_bytes n bytes w).1)
unfolding write
write-keeps max_bytes n [] w = (refl, append-nil (history n w))
write-keeps max_bytes n (b ∷ bytes) w =
    elim (Bool-cases
      (ltb 0 opened.current_size && ltb max_bytes (opened.current_size + length (b ∷ bytes)))) [
        | inl e ↦
            let (rotated, before) = rotate-history n opened in
            let (ends, kept) = after_rotate-history n (b ∷ bytes) (rotate works n opened) rotated in
            rw e (
              ends,
              ap (λ h. h ++ (b ∷ bytes)) (sym (ensure_open-history n w) ∙ before)
                  ∙ append_assoc (oldest n opened) (history n (rotate works n opened).1) (b ∷ bytes)
                  ∙ ap (λ h. oldest n opened ++ h) (sym kept)
                  ∙ ap
                      (λ o.
                        o ++ history n (after_rotate works (b ∷ bytes) (rotate works n opened)).1)
                      (oldest-ensure_open n w),
            )
        | inr e ↦ rw e (
          refl,
          ap (λ h. h ++ (b ∷ bytes)) (sym (ensure_open-history n w))
              ∙ sym (append-history n (b ∷ bytes) opened),
        )
      ]
  where
    opened : Writer
    opened = ensure_open works w
