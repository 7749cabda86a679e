-- ===== src/Common/Sets.antt =====
-- A JavaScript `Set` of strings, as a list.
use Prim.Native.String.{String}
use mathlib.Core.Path.{◌≡◌}
use mathlib.Core.Bool.{Bool, false, ◌||◌}
use mathlib.Core.List.{List, [], ◌∷◌, ◌++◌}
use mathlib.Core.Path.{refl, subst}
use mathlib.Core.Logic.{inl, inr}
use mathlib.Core.Bool.{true}
use native.Mathlib.Omega.{arith}
use text.Mathlib.TextEquality.{eq_iff}
use ai_support_agent_cli.Common.Lists.{All}
use ai_support_agent_cli.Common.Tests.{Bool-cases, str_eq, if◌then◌else◌}

-- `set.has(s)`, `xs.includes(s)`
unfoldable pub member : String → List String → Bool
member s [] = false
member s (x ∷ xs) = str_eq x s || member s xs

-- `set.add(s)`
unfoldable pub add : String → List String → List String
add s xs = if member s xs then xs else s ∷ xs

-- `set.delete(s)`
unfoldable pub erase : String → List String → List String
erase s [] = []
erase s (x ∷ xs) = if str_eq x s then erase s xs else x ∷ erase s xs

pub member-add :
    (s t : String) (xs : List String) → member t (add s xs) ≡ (str_eq s t || member t xs)
unfolding member add
member-add s t xs = ground (arith, eq_iff s t)

pub member-erase :
    (s t : String) (xs : List String)
    → member t (erase s xs) ≡ (if str_eq s t then false else member t xs)
unfolding member erase
member-erase s t [] = ground arith
member-erase s t (x ∷ xs) = ground (arith, eq_iff s t, eq_iff x s, eq_iff x t, member-erase s t xs)

-- What holds of each of the listed strings holds of a member.
pub member-All {ℓ} :
    (P : String → Type ℓ) (xs : List String) (s : String) → All P xs → member s xs ≡ true → P s
unfolding member
member-All P [] s h m = cc
member-All P (x ∷ xs) s (p, h) m = elim (Bool-cases (str_eq x s)) [
  | inl same ↦ subst P ((eq_iff x s).0 same) p
  | inr other ↦ member-All P xs s h (rw other at m)
]

pub member-append_left :
    (s : String) (xs ys : List String) → member s xs ≡ true → member s (xs ++ ys) ≡ true
unfolding member
member-append_left s [] ys m = cc
member-append_left s (x ∷ xs) ys m = elim (Bool-cases (str_eq x s)) [
  | inl same ↦ rw same refl
  | inr other ↦ rw other (member-append_left s xs ys (rw other at m))
]
