-- ===== src/Rotation/Tests.antt =====
-- The rotation of a log at concrete writes.
use ai_support_agent_cli.Common.{
  ◌≡◌, refl, true, false, none, some, [], ◌∷◌, ◌++◌, arith, if◌then◌else◌,
}
use ai_support_agent_cli.Rotation.{
  Writer, set_generation, shift, rotate, ensure_open, write, write_all, close,
}
use ai_support_agent_cli.Rotation.Kept.{history, works, rotates, oldest, write-keeps}
use ai_support_agent_cli.Rotation.Sizes.{Fits, write_all-Fits}
use ai_support_agent_cli.Rotation.Eroding.{stuck, failing_rename-erodes}

abbrev no_files : Writer
no_files = record { active = none; generation = λ i. none; is_open = false; current_size = 0 }

-- Four bytes fit in a file, and two generations are kept.
abbrev three_files : Writer
three_files =
    write_all (λ i. works) 4 2 ((1 ∷ 2 ∷ 3 ∷ []) ∷ (4 ∷ 5 ∷ []) ∷ (6 ∷ 7 ∷ 8 ∷ []) ∷ []) no_files

rotations_computed :
    (three_files.active ≡ some (6 ∷ 7 ∷ 8 ∷ []))
    × (three_files.generation 1 ≡ some (4 ∷ 5 ∷ []))
    × (three_files.generation 2 ≡ some (1 ∷ 2 ∷ 3 ∷ []))
    × ((close three_files).is_open ≡ false)
    × (rotates 4 (9 ∷ 10 ∷ []) three_files ≡ true)
unfolding write_all write rotate shift ensure_open close
rotations_computed = (refl, refl, refl, refl, refl)

write-keeps_example :
    ((write works 4 2 (9 ∷ 10 ∷ []) three_files).0 ≡ true)
    × (history 2 three_files ++ (9 ∷ 10 ∷ [])
        ≡ (if rotates 4 (9 ∷ 10 ∷ []) three_files then oldest 2 three_files else [])
          ++ history 2 (write works 4 2 (9 ∷ 10 ∷ []) three_files).1)
write-keeps_example = write-keeps 4 2 (9 ∷ 10 ∷ []) three_files

write_all-Fits_example : Fits 4 three_files
write_all-Fits_example =
    write_all-Fits 4 (λ i. works) 4 2 ((1 ∷ 2 ∷ 3 ∷ []) ∷ (4 ∷ 5 ∷ []) ∷ (6 ∷ 7 ∷ 8 ∷ []) ∷ [])
      no_files (λ i. refl) (omega arith) (omega arith, (omega arith, (omega arith, tt)))
      (omega arith, (λ j. omega arith), λ e. cc)

-- The writer after it has been closed.
abbrev waiting : Writer
waiting = record {
  active = some (6 ∷ 7 ∷ 8 ∷ []);
  generation =
      set_generation 1 (some (4 ∷ 5 ∷ [])) (set_generation 2 (some (1 ∷ 2 ∷ [])) (λ i. none));
  is_open = false;
  current_size = 3;
}

failing_rename-erodes_example :
    history 2 (write_all (λ i. stuck) 4 2 ((9 ∷ 10 ∷ []) ∷ (11 ∷ 12 ∷ []) ∷ []) waiting)
    ≡ 6 ∷ 7 ∷ 8 ∷ []
failing_rename-erodes_example =
    failing_rename-erodes 4 1 (6 ∷ 7 ∷ 8 ∷ []) ((9 ∷ 10 ∷ []) ∷ (11 ∷ 12 ∷ []) ∷ []) waiting
      (omega arith) ((omega arith, omega arith), ((omega arith, omega arith), tt)) refl refl
      (omega arith)
