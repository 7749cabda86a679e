-- ===== src/Guard/Templates.antt =====
-- The pattern of `referencesSecretVar` in server-setup/ansible-task-guard.ts from the name on: a whole word, and
-- the end of the template after it.
use mathlib.Core.Path.{subst}
use ai_support_agent_cli.Common.{
  ℕ, Bool, true, false, ◌&&◌, ◌≡◌, ◌≢◌, ◌↔◌, inl, inr, refl, sym, ap, ◌∙◌, [], ◌∷◌, ◌++◌, arith,
  All, and-eq-true, some, Option-cases, is_some,
}
use ai_support_agent_cli.Common.Text.{
  Text, strip_prefix, strip_prefix-append, strip_prefix_sound, skip, skip_split,
}
use ai_support_agent_cli.Guard.Scan.{last_word, word_head, boundary, not_brace, closes}

-- A word begins or ends between a character, of `\w` or not, and the text.
abbrev pub AtBoundary : Bool → Text → Type 0
AtBoundary prev t = prev ≢ word_head t

-- The name as a whole word, and the end of a template after it; `prev` says whether the character before
-- the name is one of `\w`.
pub record EndsWith (name : Text) (prev : Bool) (t : Text) : Type 0 where
  pub right : Text
  pub after : Text
  pub shape : t ≡ name ++ (right ++ b'}' ∷ b'}' ∷ after)
  pub clean : All (λ c. c ≢ b'}') right
  pub starts : AtBoundary prev (name ++ (right ++ b'}' ∷ b'}' ∷ after))
  pub ends : AtBoundary (last_word prev name) (right ++ b'}' ∷ b'}' ∷ after)

pub boundary_iff : (prev : Bool) (t : Text) → (boundary prev t ≡ true) ↔ AtBoundary prev t
boundary_iff prev t = ground arith

pub not_brace_iff : (c : ℕ) → (not_brace c ≡ true) ↔ (c ≢ b'}')
unfolding not_brace
not_brace_iff c = ground arith

clean_sound : (t : Text) → All (λ c. not_brace c ≡ true) t → All (λ c. c ≢ b'}') t
clean_sound [] h = tt
clean_sound (c ∷ t) (h, hs) = ((not_brace_iff c).0 h, clean_sound t hs)

skip-clean :
    (run after : Text)
    → All (λ c. c ≢ b'}') run
    → skip not_brace (run ++ b'}' ∷ after) ≡ b'}' ∷ after
unfolding not_brace
skip-clean [] after h = refl
skip-clean (c ∷ run) after (h, hs) = rw ((not_brace_iff c).1 h, skip-clean run after hs) refl

-- The end of a template, and the word before it that ends.
record Closed (prev : Bool) (rest : Text) : Type 0 where
  right : Text
  after : Text
  split : rest ≡ right ++ b'}' ∷ b'}' ∷ after
  clean : All (λ c. c ≢ b'}') right
  ends : AtBoundary prev rest

closes_sound : (prev : Bool) (rest : Text) → closes prev (some rest) ≡ true → Closed prev rest
unfolding closes
closes_sound prev rest h =
    let (run, clean, split) = skip_split not_brace rest in
    elim (Option-cases (strip_prefix (b'}' ∷ b'}' ∷ []) (skip not_brace rest))) [
      | inl e ↦ absurd (
          no_end (boundary prev rest)
            (is_some (strip_prefix (b'}' ∷ b'}' ∷ []) (skip not_brace rest))) h (rw e refl))
      | inr (after, e) ↦ record {
        right = run;
        after = after;
        split =
            split
            ∙ ap (λ (s : Text). run ++ s)
                (strip_prefix_sound (b'}' ∷ b'}' ∷ []) (skip not_brace rest) {r = after} e);
        clean = clean_sound run clean;
        ends = (boundary_iff prev rest).0 (left_true (boundary prev rest) _ h);
      }
    ]
  where
    no_end : (a b : Bool) → (a && b) ≡ true → b ≡ false → ⊥
    no_end a b h k = ground arith

    left_true : (a b : Bool) → (a && b) ≡ true → a ≡ true
    left_true a b h = ground arith

closes_complete : (prev : Bool) (rest : Text) → Closed prev rest → closes prev (some rest) ≡ true
unfolding closes
closes_complete prev rest c =
    both (boundary prev rest) _ ((boundary_iff prev rest).1 c.ends)
      (rw (c.split, skip-clean c.right (b'}' ∷ c.after) c.clean) refl)
  where
    both : (a b : Bool) → a ≡ true → b ≡ true → (a && b) ≡ true
    both a b h k = ground arith

pub name_sound :
    (name : Text) (prev : Bool) (t : Text)
    → (boundary prev t && closes (last_word prev name) (strip_prefix name t)) ≡ true
    → EndsWith name prev t
unfolding closes
name_sound name prev t h =
    let (opened, closed) =
      and-eq-true {a = boundary prev t} {b = closes (last_word prev name) (strip_prefix name t)}
        h in
    elim (Option-cases (strip_prefix name t)) [
      | inl e ↦ absurd (none_closes (rw e at closed))
      | inr (rest, e) ↦
          let c = closes_sound (last_word prev name) rest (rw e at closed) in
          let whole =
            strip_prefix_sound name t {r = rest} e ∙ ap (λ (s : Text). name ++ s) c.split in
          record {
            right = c.right;
            after = c.after;
            shape = whole;
            clean = c.clean;
            starts = subst (AtBoundary prev) whole ((boundary_iff prev t).0 opened);
            ends = rw (← c.split) c.ends;
          }
    ]
  where
    none_closes : false ≡ true → ⊥
    none_closes e = cc

pub name_complete :
    (name : Text) (prev : Bool) (t : Text)
    → EndsWith name prev t
    → (boundary prev t && closes (last_word prev name) (strip_prefix name t)) ≡ true
name_complete name prev t e =
    let rest = e.right ++ b'}' ∷ b'}' ∷ e.after in
    let found : strip_prefix name t ≡ some rest = rw e.shape (strip_prefix-append name rest) in
    rw
      (
        (boundary_iff prev t).1 (subst (AtBoundary prev) (sym e.shape) e.starts),
        found,
        closes_complete (last_word prev name) rest (record {
          right = e.right;
          after = e.after;
          split = refl;
          clean = e.clean;
          ends = e.ends;
        }),
      )
      refl
