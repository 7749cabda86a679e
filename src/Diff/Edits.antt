-- ===== src/Diff/Edits.antt =====
-- utils/unified-diff.ts, `computeEdits`: the edit script. Which lines are equal is a function of their
-- indices; the algorithm sees nothing else of them.
use ai_support_agent_cli.Common.{
  ℕ, zero, suc, ◌+◌, ◌-◌, ◌*◌, Bool, true, false, not, ◌&&◌, ◌||◌, Option, none, some, List, [],
  ◌∷◌, ◌≡◌, refl, if◌then◌else◌, leb, ltb, ◌==◌, length, Bool-cases, inl, inr,
}
use mathlib.Core.List.{reverse}
use ai_support_agent_cli.Diff.Int.{ℤ, pos, negsuc, pos_part, ◌+ℤ◌, ◌-ℤ◌, sub_ℕ, ltb_ℤ, eq_ℤ}

pub data EditType : Type 0 where
  equal : EditType
  insert : EditType
  delete : EditType

-- The index is -1 where there is none.
pub record Edit : Type 0 where
  pub type : EditType
  pub old_idx : ℤ
  pub new_idx : ℤ

abbrev minus_one : ℤ
minus_one = negsuc 0

abbrev pub at : ℕ → List ℕ → Option ℕ
at i [] = none
at zero (x ∷ xs) = some x
at (suc i) (x ∷ xs) = at i xs

-- `v[i]`, which is `undefined` out of range.
abbrev pub read : ℤ → List ℕ → Option ℕ
read (pos i) v = at i v
read (negsuc i) v = none

-- `v[i]` in the forward loop, where it is in range.
abbrev pub cell : ℕ → List ℕ → ℕ
cell i v = elim (at i v) [ none ↦ 0 | some x ↦ x ]

abbrev pub write : ℕ → ℕ → List ℕ → List ℕ
write i x [] = []
write zero x (y ∷ v) = x ∷ v
write (suc i) x (y ∷ v) = y ∷ write i x v

abbrev pub zeros : ℕ → List ℕ
zeros zero = []
zeros (suc n) = 0 ∷ zeros n

module _ (same : ℕ → ℕ → Bool) (old_count new_count : ℕ) where
  abbrev pub same_at : ℕ → ℤ → Bool
  same_at x (pos y) = same x y
  same_at x (negsuc y) = false

  -- The inner `while`; it goes on for at most as many rounds as there are old lines.
  pub snake : ℕ → ℕ → ℤ → ℕ × ℤ
  snake zero x y = (x, y)
  snake (suc rounds) x y =
      let rest = snake rounds (suc x) (y +ℤ pos 1) in
      if ltb x old_count && ltb_ℤ y (pos new_count) && same_at x y then rest else (x, y)

  abbrev pub offset : ℕ
  offset = old_count + new_count

  -- Where the path on the diagonal `k = 2 * j - d` starts.
  abbrev pub start_x : ℕ → ℕ → ℕ → List ℕ → ℕ
  start_x d j ki v =
      if j == 0 || not (j == d) && ltb (cell (ki - 1) v) (cell (suc ki) v)
      then cell (suc ki) v
      else suc (cell (ki - 1) v)

  -- The loop over `k`, with the rounds that are left; whether the end has been reached, and `v`.
  pub try_diagonals : ℕ → ℕ → ℕ → List ℕ → Bool × List ℕ
  unfolding snake
  try_diagonals zero d j v = (false, v)
  try_diagonals (suc rounds) d j v =
      let ki = offset + 2 * j - d in
      let x = start_x d j ki v in
      let (x', y') = snake old_count x (pos x -ℤ sub_ℕ ki offset) in
      let v' = write ki x' v in
      let rest = try_diagonals rounds d (suc j) v' in
      if leb old_count x' && not (ltb_ℤ y' (pos new_count)) then (true, v') else rest

  -- The loop over `d`: the trace.
  pub search_forward : ℕ → ℕ → List ℕ → List (List ℕ)
  unfolding try_diagonals
  search_forward zero d v = []
  search_forward (suc rounds) d v =
      let (found, v') = try_diagonals (suc d) d 0 v in
      let rest = search_forward rounds (suc d) v' in v ∷ (if found then v' ∷ [] else rest)

  abbrev pub lt_read : Option ℕ → Option ℕ → Bool
  lt_read (some a) (some b) = ltb a b
  lt_read (some a) none = false
  lt_read none b = false

  -- The walk back over equal lines, for at most `rounds` of them.
  pub walk_back : ℕ → ℤ → ℤ → ℤ → ℤ → List Edit → ℤ × ℤ × List Edit
  walk_back zero x y prev_x prev_y edits = (x, y, edits)
  walk_back (suc rounds) x y prev_x prev_y edits =
      let x' = x -ℤ pos 1 in
      let y' = y -ℤ pos 1 in
      let rest =
        walk_back rounds x' y' prev_x prev_y
          (record { type = equal; old_idx = x'; new_idx = y' } ∷ edits) in
      if ltb_ℤ prev_x x && ltb_ℤ prev_y y then rest else (x, y, edits)

  abbrev pub inserted : ℤ → ℤ → List Edit → ℤ × ℤ × List Edit
  inserted x y edits =
      let y' = y -ℤ pos 1 in
      (x, y', record { type = insert; old_idx = minus_one; new_idx = y' } ∷ edits)

  abbrev pub deleted : ℤ → ℤ → List Edit → ℤ × ℤ × List Edit
  deleted x y edits =
      let x' = x -ℤ pos 1 in
      (x', y, record { type = delete; old_idx = x'; new_idx = minus_one } ∷ edits)

  abbrev pub one_edit : ℕ → Option ℕ → ℤ × ℤ × List Edit → ℤ × ℤ × List Edit
  one_edit zero prev_x (x, y, edits) = (x, y, edits)
  one_edit (suc d) none (x, y, edits) = deleted x y edits
  one_edit (suc d) (some p) (x, y, edits) =
      if eq_ℤ x (pos p) then inserted x y edits else deleted x y edits

  abbrev pub walk : ℤ → ℤ → ℤ → Option ℕ → List Edit → ℤ × ℤ × List Edit
  walk x y prev_k none edits = (x, y, edits)
  walk x y prev_k (some p) edits =
      walk_back (pos_part (x -ℤ pos p)) x y (pos p) (pos p -ℤ prev_k) edits

  -- One round of `backtrace`. The edits are pushed and reversed at the end, so that the last one comes
  -- first here.
  pub step_back : ℕ → List ℕ → ℤ × ℤ × List Edit → ℤ × ℤ × List Edit
  unfolding walk_back
  step_back d v (x, y, edits) =
      let k = x -ℤ y in
      let ki = k +ℤ pos offset in
      let from_insert =
        eq_ℤ k (pos 0 -ℤ pos d)
        || not (eq_ℤ k (pos d)) && lt_read (read (ki -ℤ pos 1) v) (read (ki +ℤ pos 1) v) in
      let prev_k = if from_insert then k +ℤ pos 1 else k -ℤ pos 1 in
      let prev_x = read (prev_k +ℤ pos offset) v in one_edit d prev_x (walk x y prev_k prev_x edits)

  -- `trace` has the rounds from the last one back.
  pub backtrace : List (List ℕ) → ℤ × ℤ × List Edit → List Edit
  unfolding step_back
  backtrace [] (x, y, edits) = edits
  backtrace (v ∷ trace) state = backtrace trace (step_back (length trace) v state)

  abbrev all_inserted : ℕ → ℕ → List Edit
  all_inserted i zero = []
  all_inserted i (suc n) =
      record { type = insert; old_idx = minus_one; new_idx = pos i } ∷ all_inserted (suc i) n

  abbrev all_deleted : ℕ → ℕ → List Edit
  all_deleted i zero = []
  all_deleted i (suc n) =
      record { type = delete; old_idx = pos i; new_idx = minus_one } ∷ all_deleted (suc i) n

  unfoldable pub compute_edits : List Edit
  unfolding search_forward backtrace
  compute_edits =
      if old_count == 0
      then all_inserted 0 new_count
      else if new_count == 0
      then all_deleted 0 old_count
      else backtrace (reverse (search_forward (suc offset) 0 (zeros (suc (2 * offset)))))
          (pos old_count, pos new_count, [])

-- The indices of the new text that the edits keep or insert.
abbrev pub new_side : List Edit → List ℤ
new_side [] = []
new_side (e ∷ edits) =
    let rest = new_side edits in
    elim e.type [
      | EditType.equal ↦ e.new_idx ∷ rest
      | EditType.insert ↦ e.new_idx ∷ rest
      | EditType.delete ↦ rest
    ]

-- From a text of one line to a text of two, one of which is the old line, the edits lose the first of
-- the new lines: what they keep and insert is the second line alone.
pub compute_edits-loses_line :
    (same : ℕ → ℕ → Bool)
    → (same 0 0 || same 0 1) ≡ true
    → new_side (compute_edits same 1 2) ≡ pos 1 ∷ []
unfolding compute_edits
compute_edits-loses_line same h = elim (Bool-cases (same 0 0)) [
  | inl e ↦ rw e refl
  | inr e ↦ let e' = rw e at h in rw (e, e') refl
]
