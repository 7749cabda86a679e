-- ===== src/Guard/Staging.antt =====
-- Where a `shared_file_src` that `isValidSharedFileSrc` accepts can lead: the role joins it to the
-- staging directory.
use ai_support_agent_cli.Common.{
  true, ◌||◌, ◌≡◌, ◌≢◌, inl, inr, refl, List, [], ◌∷◌, ◌++◌, All, Bool-cases, if◌then◌else◌,
}
use mathlib.Core.List.{tail}
use ai_support_agent_cli.Common.Text.{Text, codes, trim, split, text_eq, text_eq_iff}
use ai_support_agent_cli.Guard.Role.{dot_dot, is_valid_src}
use ai_support_agent_cli.Guard.Silence.{is_valid_src_iff}

-- The directories below the root, innermost first, after the segments of a relative path are
-- followed from `dir`: "" and "." stay, ".." leaves.
abbrev pub follow : List Text → List Text → List Text
follow dir [] = dir
follow dir (s ∷ segments) =
    follow
      (if text_eq s [] || text_eq s (codes ".")
        then dir
        else if text_eq s dot_dot
        then tail dir
        else s ∷ dir)
      segments

follow_down :
    (segments inner dir : List Text)
    → All (λ s. s ≢ dot_dot) segments
    → (deeper : List Text) × (follow (inner ++ dir) segments ≡ deeper ++ dir)
follow_down [] inner dir h = (inner, refl)
follow_down (s ∷ segments) inner dir (h, hs) =
    elim (Bool-cases (text_eq s [] || text_eq s (codes "."))) [
      | inl stay ↦ rw stay (follow_down segments inner dir hs)
      | inr moves ↦ elim (Bool-cases (text_eq s dot_dot)) [
        | inl up ↦ absurd (h ((text_eq_iff s dot_dot).0 up))
        | inr down ↦ rw (moves, down) (follow_down segments (s ∷ inner) dir hs)
      ]
    ]

-- An accepted source, followed from the staging directory, ends inside the staging directory.
pub is_valid_src-stays_inside :
    (value : Text) (dir : List Text)
    → is_valid_src value ≡ true
    → (deeper : List Text) × (follow dir (split b'/' (trim value)) ≡ deeper ++ dir)
is_valid_src-stays_inside value dir h =
    follow_down (split b'/' (trim value)) [] dir ((is_valid_src_iff value).0 h).stays_below
