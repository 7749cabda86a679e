-- ===== src/Diff/Hunks.antt =====
-- utils/unified-diff.ts, `buildHunks`: the changed edits with the lines around them, in hunks.
use ai_support_agent_cli.Common.{
  ℕ, suc, ◌+◌, ◌-◌, min, Bool, true, false, List, [], ◌∷◌, if◌then◌else◌, length, drop, take,
  filter, map, leb,
}
use ai_support_agent_cli.Diff.Int.{ℤ, pos, negsuc}
use ai_support_agent_cli.Diff.Edits.{EditType, Edit}

-- `start` and `last` are the indices of the first and the last edit of a hunk.
pub record Group : Type 0 where
  pub start : ℕ
  pub last : ℕ

abbrev pub is_equal : Edit → Bool
is_equal e = elim e.type [
  | EditType.equal ↦ true
  | EditType.insert ↦ false
  | EditType.delete ↦ false
]

unfoldable pub changed_indices : ℕ → List Edit → List ℕ
changed_indices i [] = []
changed_indices i (e ∷ edits) =
    let rest = changed_indices (suc i) edits in if is_equal e then rest else i ∷ rest

-- `most` is `edits.length - 1`, and `around` is `contextLines`.
module _ (most around : ℕ) where
  abbrev pub window : ℕ → Group
  window c = record { start = c - around; last = min most (c + around) }

  unfoldable pub merge_groups : Group → List ℕ → List Group
  merge_groups g [] = g ∷ []
  merge_groups g (c ∷ cs) =
      let merged = merge_groups (record { start = g.start; last = min most (c + around) }) cs in
      let apart = merge_groups (window c) cs in
      if leb (c - around) (suc g.last) then merged else g ∷ apart

  abbrev pub group_changes : List ℕ → List Group
  group_changes [] = []
  group_changes (c ∷ cs) = merge_groups (window c) cs

unfoldable pub hunk_groups : ℕ → List Edit → List Group
unfolding changed_indices merge_groups
hunk_groups around edits = group_changes (length edits - 1) around (changed_indices 0 edits)

-- The lines of a hunk, with the index of the text they are read from.
pub data Line : Type 0 where
  kept : ℤ → Line
  removed : ℤ → Line
  added : ℤ → Line

pub record Hunk : Type 0 where
  pub old_start : ℕ
  pub old_count : ℕ
  pub new_start : ℕ
  pub new_count : ℕ
  pub lines : List Line

-- `find((e) => e.idx >= 0)`, and the line's number, counted from 1.
abbrev pub first_line : (Edit → ℤ) → List Edit → ℕ
first_line idx [] = 1
first_line idx (e ∷ edits) = elim (idx e) [ pos i ↦ suc i | negsuc i ↦ first_line idx edits ]

abbrev pub is_old : Edit → Bool
is_old e = elim e.type [ EditType.equal ↦ true | EditType.insert ↦ false | EditType.delete ↦ true ]

abbrev pub is_new : Edit → Bool
is_new e = elim e.type [ EditType.equal ↦ true | EditType.insert ↦ true | EditType.delete ↦ false ]

abbrev pub line_of : Edit → Line
line_of e = elim e.type [
  | EditType.equal ↦ kept e.old_idx
  | EditType.delete ↦ removed e.old_idx
  | EditType.insert ↦ added e.new_idx
]

unfoldable pub hunk_of : List Edit → Hunk
hunk_of edits = record {
  old_start = first_line (λ e. e.old_idx) edits;
  old_count = length (filter is_old edits);
  new_start = first_line (λ e. e.new_idx) edits;
  new_count = length (filter is_new edits);
  lines = map line_of edits;
}

unfoldable pub build_hunks : ℕ → List Edit → List Hunk
unfolding hunk_groups hunk_of
build_hunks around edits =
    map (λ g. hunk_of (take (suc g.last - g.start) (drop g.start edits))) (hunk_groups around edits)
