-- ===== src/Progress/Lines.antt =====
-- Where newlines cut a text, for server-setup/progress-tailer.ts.
use ai_support_agent_cli.Common.{
  ℕ, true, none, some, List, [], ◌∷◌, ◌++◌, ◌≡◌, inl, inr, refl, sym, ap, ◌∙◌, arith, Bool-cases,
  Option-cases, ◌==◌, flat_map, append_assoc,
}
use ai_support_agent_cli.Common.Text.{Text, split}
use ai_support_agent_cli.Progress.{last_newline}

split-cons :
    (c : ℕ) (xs : Text) → (first : Text) × (others : List Text) × (split c xs ≡ first ∷ others)
unfolding split
split-cons c [] = ([], [], refl)
split-cons c (d ∷ xs) =
    let (first, others, e) = split-cons c xs in
    elim (Bool-cases (d == c)) [
      | inl same ↦ ([], first ∷ others, rw (split, e, same) refl)
      | inr differ ↦ (d ∷ first, others, rw (split, e, differ) refl)
    ]

pub split-append : (c : ℕ) (xs ys : Text) → split c (xs ++ (c ∷ ys)) ≡ split c xs ++ split c ys
unfolding split
split-append c [] ys =
    let (first, others, e) = split-cons c ys in
    let same : (c == c) ≡ true = ground arith in rw (split, e, same) refl
split-append c (d ∷ xs) ys =
    let (first, others, e) = split-cons c xs in
    elim (Bool-cases (d == c)) [
      | inl same ↦ rw (split, split-append c xs ys, e, same) refl
      | inr differ ↦ rw (split, split-append c xs ys, e, differ) refl
    ]

pub flat_map-append {ℓ κ} :
    {A : Type ℓ} {B : Type κ} (f : A → List B) (xs ys : List A)
    → flat_map f (xs ++ ys) ≡ flat_map f xs ++ flat_map f ys
flat_map-append f [] ys = refl
flat_map-append f (x ∷ xs) ys =
    ap (λ t. f x ++ t) (flat_map-append f xs ys) ∙ sym (append_assoc (f x) _ _)

pub last_newline_sound :
    (bs : List ℕ) {whole rest : List ℕ}
    → last_newline bs ≡ some (whole, rest)
    → bs ≡ whole ++ (10 ∷ rest)
unfolding last_newline
last_newline_sound [] h = cc
last_newline_sound (b ∷ bs) {whole} {rest} h = elim (Option-cases (last_newline bs)) [
  | inl e ↦ ground (arith, e)
  | inr ((w, r), e) ↦ ground (arith, e, last_newline_sound bs {whole = w} {rest = r} e)
]

-- Where the last newline of a text is, if one stands before `ys`.
pub last_newline-append :
    (xs ys : List ℕ)
    → last_newline (xs ++ (10 ∷ ys))
      ≡ (elim (last_newline ys) [ none ↦ some (xs, ys) | some (w, r) ↦ some (xs ++ (10 ∷ w), r) ])
unfolding last_newline
last_newline-append [] ys = elim (Option-cases (last_newline ys)) [
  | inl e ↦ rw (last_newline, e) refl
  | inr (wr, e) ↦ rw (last_newline, e) refl
]
last_newline-append (x ∷ xs) ys = elim (Option-cases (last_newline ys)) [
  | inl e ↦ rw (last_newline, last_newline-append xs ys, e) refl
  | inr (wr, e) ↦ rw (last_newline, last_newline-append xs ys, e) refl
]
