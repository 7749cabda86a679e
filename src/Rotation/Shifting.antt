-- ===== src/Rotation/Shifting.antt =====
-- log-rotator.ts, `rotate`: where the loop puts the generations.
use ai_support_agent_cli.Common.{
  ℕ, zero, suc, ◌≤◌, ◌<◌, ◌≡◌, refl, ap, ◌∙◌, inl, inr, true, false, Option, none, some, List,
  arith, ◌==◌, if◌then◌else◌, Bool-cases,
}
use ai_support_agent_cli.Rotation.{Faults, move_file, move, shift}

move-free :
    (src dst j : ℕ) (generation : ℕ → Option (List ℕ))
    → src < dst
    → generation dst ≡ none
    → move src dst generation j
      ≡ (if dst == j then generation src else if src == j then none else generation j)
move-free src dst j generation h free = go (generation src) refl
  where
    -- A generation that is not there.
    same_none : (i : ℕ) → generation i ≡ none → (i == j) ≡ true → generation j ≡ none
    same_none i e same = ap generation same_nat ∙ e
      where
        same_nat : j ≡ i
        same_nat = ground arith

    go :
        (file : Option (List ℕ))
        → generation src ≡ file
        → move_file file src dst generation j
          ≡ (if dst == j then file else if src == j then none else generation j)
    go (some bytes) e = refl
    go none e = elim (Bool-cases (dst == j)) [
      | inl d ↦ rw d (same_none dst free d)
      | inr d ↦ elim (Bool-cases (src == j)) [
        | inl f ↦ rw (d, f) (same_none src e f)
        | inr f ↦ rw (d, f) refl
      ]
    ]

-- What the loop from `most` down leaves: each generation is one further on, and the first is free.
abbrev pub Shifted : ℕ → (ℕ → Option (List ℕ)) → (ℕ → Option (List ℕ)) → Type 0
Shifted most generation after =
    (after 1 ≡ none)
    × ((j : ℕ) → suc (suc j) ≤ most → after (suc (suc j)) ≡ generation (suc j))
    × ((j : ℕ) → most < j → after j ≡ generation j)

pub eq_nat : (i j : ℕ) → (i == j) ≡ true → i ≡ j
eq_nat i j h = ground arith

module _ (i : ℕ) (generation : ℕ → Option (List ℕ)) (free : generation (suc (suc i)) ≡ none) where
  abbrev moved : ℕ → Option (List ℕ)
  moved = move (suc i) (suc (suc i)) generation

  moved_at :
      (j : ℕ)
      → moved j ≡ (
          if suc (suc i) == j
          then generation (suc i)
          else if suc i == j
          then none
          else generation j)
  moved_at j = move-free (suc i) (suc (suc i)) j generation (omega arith) free

  moved-frees : moved (suc i) ≡ none
  moved-frees = moved_at (suc i) ∙ rw (differ, same) refl
    where
      differ : (suc (suc i) == suc i) ≡ false
      differ = ground arith

      same : (suc i == suc i) ≡ true
      same = ground arith

  moved-fills : moved (suc (suc i)) ≡ generation (suc i)
  moved-fills = moved_at (suc (suc i)) ∙ rw same refl
    where
      same : (suc (suc i) == suc (suc i)) ≡ true
      same = ground arith

  moved-keeps : (j : ℕ) → (suc (suc i) == j) ≡ false → (suc i == j) ≡ false → moved j ≡ generation j
  moved-keeps j h k = moved_at j ∙ rw (h, k) refl

  moved-Shifted :
      (after : ℕ → Option (List ℕ))
      → Shifted (suc i) moved after
      → Shifted (suc (suc i)) generation after
  moved-Shifted after (first, below, above) = (
    first,
    λ j h. elim (Bool-cases (i == j)) [
      | inl e ↦ rw (← eq_nat i j e) (above (suc (suc i)) (omega arith) ∙ moved-fills)
      | inr e ↦ below j (ground arith) ∙ moved-keeps (suc j) (ground arith) (ground arith)
    ],
    λ j h. above j (omega arith) ∙ moved-keeps j (ground arith) (ground arith),
  )

pub shift-Shifted :
    (faults : Faults) (i : ℕ) (generation : ℕ → Option (List ℕ))
    → ((j : ℕ) → faults.fails (suc (suc j)) ≡ false)
    → generation (suc i) ≡ none
    → ((shift faults (suc i) generation).0 ≡ true)
      × Shifted (suc i) generation (shift faults (suc i) generation).1
unfolding shift
shift-Shifted faults zero generation works free =
    (refl, (free, (λ j h. absurd (omega arith)), λ j h. refl))
shift-Shifted faults (suc i) generation works free =
    let (ends, places) =
      shift-Shifted faults i (moved i generation free) works (moved-frees i generation free) in
    rw (works i) (ends, moved-Shifted i generation free _ places)
