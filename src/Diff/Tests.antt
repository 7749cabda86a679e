-- ===== src/Diff/Tests.antt =====
-- The edit script and the hunks at concrete texts.
use ai_support_agent_cli.Common.{ℕ, zero, suc, ◌≡◌, refl, Bool, List, [], ◌∷◌, arith, str_eq}
use ai_support_agent_cli.Diff.Int.{pos, negsuc}
use ai_support_agent_cli.Diff.Edits.{
  Edit, equal, insert, delete, new_side, compute_edits, compute_edits-loses_line,
}
use ai_support_agent_cli.Diff.Hunks.{hunk_groups, kept, removed, added, build_hunks}
use ai_support_agent_cli.Diff.Shown.{shown, change_near, hunk_groups-shown}

-- [name] becomes [comment, name].
abbrev commented : ℕ → ℕ → Bool
commented zero (suc zero) = str_eq "name" "name"
commented i j = str_eq "name" "comment"

compute_edits-loses_line_example : new_side (compute_edits commented 1 2) ≡ pos 1 ∷ []
compute_edits-loses_line_example = compute_edits-loses_line commented refl

abbrev replaced : List Edit
replaced =
    record { type = equal; old_idx = pos 0; new_idx = pos 0 }
    ∷ record { type = equal; old_idx = pos 1; new_idx = pos 1 }
    ∷ record { type = delete; old_idx = pos 2; new_idx = negsuc 0 }
    ∷ record { type = insert; old_idx = negsuc 0; new_idx = pos 2 }
    ∷ record { type = equal; old_idx = pos 3; new_idx = pos 3 }
    ∷ record { type = equal; old_idx = pos 4; new_idx = pos 4 }
    ∷ record { type = equal; old_idx = pos 5; new_idx = pos 5 }
    ∷ record { type = insert; old_idx = negsuc 0; new_idx = pos 6 }
    ∷ []

hunks_computed :
    build_hunks 1 replaced
    ≡ record {
      old_start = 2;
      old_count = 3;
      new_start = 2;
      new_count = 3;
      lines = kept (pos 1) ∷ removed (pos 2) ∷ added (pos 2) ∷ kept (pos 3) ∷ [];
    }
      ∷ record {
        old_start = 6;
        old_count = 1;
        new_start = 6;
        new_count = 2;
        lines = kept (pos 5) ∷ added (pos 6) ∷ [];
      }
      ∷ []
unfolding build_hunks
hunks_computed = refl

hunk_groups-shown_example : shown 4 (hunk_groups 1 replaced) ≡ change_near 1 4 0 replaced
hunk_groups-shown_example = hunk_groups-shown 1 replaced 4 (omega arith)
