-- ===== src/Diff/Shown.antt =====
-- utils/unified-diff.ts, `buildHunks`: which edits the hunks show, and that the hunks do not touch.
use ai_support_agent_cli.Common.{
  ℕ, suc, ◌+◌, ◌-◌, ◌≤◌, ◌<◌, ◌≡◌, refl, ap, ◌∙◌, min, Bool, true, false, not, ◌&&◌, ◌||◌, List, [],
  ◌∷◌, leb, length, any, arith, Bool-cases, inl, inr, if_elim,
}
use ai_support_agent_cli.Diff.Edits.{Edit}
use ai_support_agent_cli.Diff.Hunks.{
  Group, is_equal, changed_indices, window, merge_groups, group_changes, hunk_groups,
}

-- The edit at `i` is in one of the groups.
abbrev pub shown : ℕ → List Group → Bool
shown i groups = any (λ g. leb g.start i && leb i g.last) groups

-- The edit at `i` is at most `around` edits away from a changed one.
abbrev pub near : ℕ → ℕ → List ℕ → Bool
near around i changes = any (λ c. leb c (i + around) && leb i (c + around)) changes

-- Indices in order, from `low` up to `most`.
abbrev pub Between : ℕ → ℕ → List ℕ → Type 0
Between low most [] = Unit
Between low most (c ∷ cs) = (low ≤ c) × (c ≤ most) × Between (suc c) most cs

-- Groups in order, each at least two edits after the one before, and none after `most`.
abbrev pub Separated : ℕ → ℕ → List Group → Type 0
Separated low most [] = Unit
Separated low most (g ∷ gs) =
    (low ≤ g.start) × (g.start ≤ g.last) × (g.last ≤ most) × Separated (2 + g.last) most gs

module _ (most around : ℕ) where
  widened :
      (s l d i : ℕ) (rest : Bool)
      → leb (d - around) (suc l) ≡ true
      → s ≤ d - around
      → l ≤ min most (d + around)
      → i ≤ most
      → ((leb s i && leb i (min most (d + around))) || rest)
        ≡ ((leb s i && leb i l) || ((leb d (i + around) && leb i (d + around)) || rest))
  widened s l d i rest touch starts ends h = ground arith

  set_apart :
      (d i : ℕ)
      → i ≤ most
      → (leb (d - around) i && leb i (min most (d + around)))
        ≡ (leb d (i + around) && leb i (d + around))
  set_apart d i h = ground arith

  merge_groups-shown :
      (g : Group) (c : ℕ) (cs : List ℕ) (i : ℕ)
      → g.last ≡ min most (c + around)
      → g.start ≤ c - around
      → c ≤ most
      → Between (suc c) most cs
      → i ≤ most
      → shown i (merge_groups most around g cs)
        ≡ ((leb g.start i && leb i g.last) || near around i cs)
  unfolding merge_groups
  merge_groups-shown g c [] i ends starts inside b h = refl
  merge_groups-shown g c (d ∷ cs) i ends starts inside (low, high, b) h =
      elim (Bool-cases (leb (d - around) (suc g.last))) [
        | inl e ↦
            rw
              (
                e,
                merge_groups-shown (record { start = g.start; last = min most (d + around) }) d cs i
                    refl (omega arith) high b h,
              )
              (widened g.start g.last d i (near around i cs) e (omega arith) (omega arith) h)
        | inr e ↦
            rw (e, merge_groups-shown (window most around d) d cs i refl (omega arith) high b h)
              (ap (λ b. (leb g.start i && leb i g.last) || (b || near around i cs))
                (set_apart d i h))
      ]

  merge_groups-Separated :
      (low : ℕ) (g : Group) (c : ℕ) (cs : List ℕ)
      → low ≤ g.start
      → g.last ≡ min most (c + around)
      → g.start ≤ c - around
      → c ≤ most
      → Between (suc c) most cs
      → Separated low most (merge_groups most around g cs)
  unfolding merge_groups
  merge_groups-Separated low g c [] after ends starts inside b =
      (after, omega arith, omega arith, tt)
  merge_groups-Separated low g c (d ∷ cs) after ends starts inside (lower, high, b) =
      if_elim (Separated low most) (leb (d - around) (suc g.last)) _ _
        (λ touch.
          merge_groups-Separated low (record { start = g.start; last = min most (d + around) }) d cs
            after refl (omega arith) high b)
        (λ apart. (
          after,
          omega arith,
          omega arith,
          merge_groups-Separated (2 + g.last) (window most around d) d cs (ground arith) refl
              (omega arith) high b,
        ))

Between-lower : (low most : ℕ) (cs : List ℕ) → Between (suc low) most cs → Between low most cs
Between-lower low most [] b = tt
Between-lower low most (c ∷ cs) (l, h, b) = (omega arith, h, b)

changed_indices-Between :
    (i most : ℕ) (edits : List Edit)
    → i + length edits ≤ suc most
    → Between i most (changed_indices i edits)
unfolding changed_indices
changed_indices-Between i most [] h = tt
changed_indices-Between i most (e ∷ edits) h =
    let rest = changed_indices-Between (suc i) most edits (omega arith) in
    if_elim (Between i most) (is_equal e) _ _ (λ _. Between-lower i most _ rest)
      (λ _. (omega arith, omega arith, rest))

-- An edit that is not an equal line, of those from `j` on, is at most `around` edits away from `i`.
abbrev pub change_near : ℕ → ℕ → ℕ → List Edit → Bool
change_near around i j [] = false
change_near around i j (e ∷ edits) =
    not (is_equal e) && (leb j (i + around) && leb i (j + around))
    || change_near around i (suc j) edits

near-changed_indices :
    (around i j : ℕ) (edits : List Edit)
    → near around i (changed_indices j edits) ≡ change_near around i j edits
unfolding changed_indices
near-changed_indices around i j [] = refl
near-changed_indices around i j (e ∷ edits) = elim (Bool-cases (is_equal e)) [
  | inl same ↦ rw (same, near-changed_indices around i (suc j) edits) refl
  | inr changed ↦ rw (changed, near-changed_indices around i (suc j) edits) refl
]

group_changes-shown :
    (most around : ℕ) (cs : List ℕ) (i : ℕ)
    → Between 0 most cs
    → i ≤ most
    → shown i (group_changes most around cs) ≡ near around i cs
group_changes-shown most around [] i b h = refl
group_changes-shown most around (c ∷ cs) i (low, high, b) h =
    rw
      (
        merge_groups-shown most around (window most around c) c cs i refl (omega arith) high b h,
        set_apart most around c i h,
      )
      refl

group_changes-Separated :
    (most around : ℕ) (cs : List ℕ)
    → Between 0 most cs
    → Separated 0 most (group_changes most around cs)
group_changes-Separated most around [] b = tt
group_changes-Separated most around (c ∷ cs) (low, high, b) =
    merge_groups-Separated most around 0 (window most around c) c cs (omega arith) refl
      (omega arith) high b

-- The hunks show an edit exactly when it is at most as many edits away from an inserted or deleted
-- line as there are lines of context.
pub hunk_groups-shown :
    (around : ℕ) (edits : List Edit) (i : ℕ)
    → i < length edits
    → shown i (hunk_groups around edits) ≡ change_near around i 0 edits
unfolding hunk_groups
hunk_groups-shown around edits i h =
    group_changes-shown (length edits - 1) around (changed_indices 0 edits) i
      (changed_indices-Between 0 (length edits - 1) edits (omega arith)) (omega arith)
    ∙ near-changed_indices around i 0 edits

-- The hunks come in order, none is empty, none goes past the last edit, and between one and the next
-- at least one edit is left out.
pub hunk_groups-Separated :
    (around : ℕ) (edits : List Edit) → Separated 0 (length edits - 1) (hunk_groups around edits)
unfolding hunk_groups
hunk_groups-Separated around edits =
    group_changes-Separated (length edits - 1) around (changed_indices 0 edits)
      (changed_indices-Between 0 (length edits - 1) edits (omega arith))
