-- ===== src/Common/Text.antt =====
-- Text as a list of code points, with the string methods and character classes of JavaScript that
-- the program's own code and its regular expressions use.
use Prim.Native.Nat.{ℕ}
use Prim.Native.Char.{code}
use Prim.Native.String.{String}
use mathlib.Core.Path.{◌≡◌, refl, ap}
use mathlib.Core.Logic.{◌↔◌, inl, inr}
use mathlib.Core.Bool.{Bool, true, false, ◌&&◌, ◌||◌}
use mathlib.Core.Option.{Option, none, some}
use mathlib.Core.List.{List, [], ◌∷◌, ◌++◌, reverse}
use native.Mathlib.Omega.{arith}
use ai_support_agent_cli.Common.Tests.{◌==◌, leb, if◌then◌else◌, Bool-cases, is_some}
use ai_support_agent_cli.Common.Lists.{All}

abbrev pub Text : Type 0
Text = List ℕ

abbrev pub codes : String → Text
codes String.[] = []
codes (String.◌∷◌ c s) = code c ∷ codes s

abbrev pub between : ℕ → ℕ → ℕ → Bool
between lo hi c = leb lo c && leb c hi

abbrev pub is_digit : ℕ → Bool
is_digit c = between b'0' b'9' c

abbrev pub is_upper : ℕ → Bool
is_upper c = between b'A' b'Z' c

abbrev pub is_alnum : ℕ → Bool
is_alnum c = between b'a' b'z' c || is_upper c || is_digit c

-- `\w`
unfoldable pub is_word : ℕ → Bool
is_word c = is_alnum c || c == b'_'

-- `\s`, which is also what `trim` removes
unfoldable pub is_space : ℕ → Bool
is_space c =
    between 9 13 c
    || c == 32
    || c == 0xa0
    || c == 0x1680
    || between 0x2000 0x200a c
    || c == 0x2028
    || c == 0x2029
    || c == 0x202f
    || c == 0x205f
    || c == 0x3000
    || c == 0xfeff

-- `a === b`
abbrev pub text_eq : Text → Text → Bool
text_eq [] [] = true
text_eq [] (b ∷ t) = false
text_eq (a ∷ s) [] = false
text_eq (a ∷ s) (b ∷ t) = a == b && text_eq s t

-- What follows `p` in `t`, where `t` starts with `p`.
abbrev pub strip_prefix : Text → Text → Option Text
strip_prefix [] t = some t
strip_prefix (a ∷ p) [] = none
strip_prefix (a ∷ p) (b ∷ t) = if a == b then strip_prefix p t else none

abbrev pub starts_with : Text → Text → Bool
starts_with t p = is_some (strip_prefix p t)

-- `t.includes(p)`
abbrev pub includes : Text → Text → Bool
includes [] p = starts_with [] p
includes (c ∷ t) p = starts_with (c ∷ t) p || includes t p

-- `[...]*` of a character class: what follows the longest run.
abbrev pub skip : (ℕ → Bool) → Text → Text
skip p [] = []
skip p (c ∷ t) = if p c then skip p t else c ∷ t

-- `t.trim()`
unfoldable pub trim : Text → Text
unfolding is_space
trim t = reverse (skip is_space (reverse (skip is_space t)))

-- `t.split(c)`
unfoldable pub split : ℕ → Text → List Text
split c [] = [] ∷ []
split c (d ∷ t) = elim (split c t) [
  | [] ↦ [] ∷ []
  | seg ∷ segs ↦ if d == c then [] ∷ seg ∷ segs else (d ∷ seg) ∷ segs
]

pub text_eq_iff : (s t : Text) → (text_eq s t ≡ true) ↔ (s ≡ t)
text_eq_iff [] [] = ground arith
text_eq_iff [] (b ∷ t) = ground arith
text_eq_iff (a ∷ s) [] = ground arith
text_eq_iff (a ∷ s) (b ∷ t) = ground (arith, text_eq_iff s t)

pub strip_prefix-append : (p t : Text) → strip_prefix p (p ++ t) ≡ some t
strip_prefix-append [] t = refl
strip_prefix-append (a ∷ p) t = ground (arith, strip_prefix-append p t)

pub strip_prefix_sound : (p t : Text) {r : Text} → strip_prefix p t ≡ some r → t ≡ p ++ r
strip_prefix_sound [] t h = cc
strip_prefix_sound (a ∷ p) [] h = cc
strip_prefix_sound (a ∷ p) (b ∷ t) {r} h = ground (arith, strip_prefix_sound p t {r = r})

-- A run of the class, and what is left does not start in it.
pub skip_split :
    (p : ℕ → Bool) (t : Text) → (run : Text) × All (λ c. p c ≡ true) run × (t ≡ run ++ skip p t)
skip_split p [] = ([], tt, refl)
skip_split p (c ∷ t) = elim (Bool-cases (p c)) [
  | inl h ↦
      let (run, all_in, e) = skip_split p t in
      (c ∷ run, (h, all_in), rw h (ap (λ (s : Text). c ∷ s) e))
  | inr h ↦ ([], tt, rw h)
]
