-- ===== src/Guard/Mentions.antt =====
-- What the pattern of `referencesSecretVar` in server-setup/ansible-task-guard.ts matches.
use mathlib.Core.Path.{subst}
use ai_support_agent_cli.Common.{
  Bool, true, false, ◌&&◌, ◌||◌, ◌≡◌, ◌≢◌, ◌↔◌, inl, inr, refl, sym, ap, ◌∙◌, [], ◌∷◌, ◌++◌, arith,
  All, and-eq-true, Bool-cases, Option-cases,
}
use ai_support_agent_cli.Common.Text.{Text, is_word, strip_prefix, strip_prefix_sound}
use ai_support_agent_cli.Guard.Scan.{
  last_word, boundary, not_brace, closes, inside, opens, mentions,
}
use ai_support_agent_cli.Guard.Templates.{
  AtBoundary, EndsWith, not_brace_iff, name_sound, name_complete,
}

-- A template inside the text that has the name in it as a whole word.
pub record Mentions (name t : Text) : Type 0 where
  pub before : Text
  pub left : Text
  pub right : Text
  pub after : Text
  pub shape : t ≡ before ++ (b'{' ∷ b'{' ∷ left ++ (name ++ (right ++ b'}' ∷ b'}' ∷ after)))
  pub left_clean : All (λ c. c ≢ b'}') left
  pub right_clean : All (λ c. c ≢ b'}') right
  pub starts : AtBoundary (last_word false left) (name ++ (right ++ b'}' ∷ b'}' ∷ after))
  pub ends : AtBoundary (last_word (last_word false left) name) (right ++ b'}' ∷ b'}' ∷ after)

-- The rest of a template, after characters that the name may follow.
record Inside (name : Text) (prev : Bool) (t : Text) : Type 0 where
  left : Text
  rest : Text
  split : t ≡ left ++ rest
  clean : All (λ c. c ≢ b'}') left
  word : EndsWith name (last_word prev left) rest

inside_sound :
    (name : Text) (prev : Bool) (t : Text) → inside name prev t ≡ true → Inside name prev t
unfolding inside
inside_sound name prev [] h = record {
  left = [];
  rest = [];
  split = refl;
  clean = tt;
  word = name_sound name prev [] h;
}
inside_sound name prev (c ∷ t) h =
    elim (Bool-cases
      (boundary prev (c ∷ t) && closes (last_word prev name) (strip_prefix name (c ∷ t)))) [
        | inl here ↦ record {
          left = [];
          rest = c ∷ t;
          split = refl;
          clean = tt;
          word = name_sound name prev (c ∷ t) here;
        }
        | inr later ↦
            let (brace, more) = and-eq-true (or_right later h) in
            let i = inside_sound name (is_word c) t more in
            record {
              left = c ∷ i.left;
              rest = i.rest;
              split = ap (λ (s : Text). c ∷ s) i.split;
              clean = ((not_brace_iff c).0 brace, i.clean);
              word = i.word;
            }
      ]
  where
    or_right : {a b : Bool} → a ≡ false → (a || b) ≡ true → b ≡ true
    or_right e h = ground arith

inside_complete :
    (name : Text) (left : Text) (prev : Bool) (rest : Text)
    → All (λ c. c ≢ b'}') left
    → EndsWith name (last_word prev left) rest
    → inside name prev (left ++ rest) ≡ true
unfolding inside
inside_complete name [] prev [] clean e = name_complete name prev [] e
inside_complete name [] prev (c ∷ rest) clean e = rw (name_complete name prev (c ∷ rest) e) refl
inside_complete name (c ∷ left) prev rest (h, hs) e =
    or_both
      (boundary prev (c ∷ (left ++ rest))
        && closes (last_word prev name) (strip_prefix name (c ∷ (left ++ rest))))
      (not_brace c) (inside name (is_word c) (left ++ rest)) ((not_brace_iff c).1 h)
      (inside_complete name left (is_word c) rest hs e)
  where
    or_both : (a b d : Bool) → b ≡ true → d ≡ true → (a || (b && d)) ≡ true
    or_both a b d h k = ground arith

mentions_sound : (name t : Text) → mentions name t ≡ true → Mentions name t
unfolding mentions opens
mentions_sound name [] h = cc
mentions_sound name (c ∷ t) h =
    elim (Bool-cases (opens name (strip_prefix (b'{' ∷ b'{' ∷ []) (c ∷ t)))) [
      | inl here ↦ elim (Option-cases (strip_prefix (b'{' ∷ b'{' ∷ []) (c ∷ t))) [
        | inl e ↦ absurd (none_opens (rw e at here))
        | inr (rest, e) ↦
            let i = inside_sound name false rest (rw e at here) in
            record {
              before = [];
              left = i.left;
              right = i.word.right;
              after = i.word.after;
              shape =
                  strip_prefix_sound (b'{' ∷ b'{' ∷ []) (c ∷ t) {r = rest} e
                  ∙ ap (λ (s : Text). b'{' ∷ b'{' ∷ s)
                      (i.split ∙ ap (λ (s : Text). i.left ++ s) i.word.shape);
              left_clean = i.clean;
              right_clean = i.word.clean;
              starts = i.word.starts;
              ends = i.word.ends;
            }
      ]
      | inr later ↦
          let m = mentions_sound name t (or_right later h) in
          record {
            before = c ∷ m.before;
            left = m.left;
            right = m.right;
            after = m.after;
            shape = ap (λ (s : Text). c ∷ s) m.shape;
            left_clean = m.left_clean;
            right_clean = m.right_clean;
            starts = m.starts;
            ends = m.ends;
          }
    ]
  where
    none_opens : false ≡ true → ⊥
    none_opens e = cc

    or_right : {a b : Bool} → a ≡ false → (a || b) ≡ true → b ≡ true
    or_right e h = ground arith

mentions_complete :
    (name before left right after : Text)
    → All (λ c. c ≢ b'}') left
    → All (λ c. c ≢ b'}') right
    → AtBoundary (last_word false left) (name ++ (right ++ b'}' ∷ b'}' ∷ after))
    → AtBoundary (last_word (last_word false left) name) (right ++ b'}' ∷ b'}' ∷ after)
    → mentions name (before ++ (b'{' ∷ b'{' ∷ left ++ (name ++ (right ++ b'}' ∷ b'}' ∷ after))))
      ≡ true
unfolding mentions opens
mentions_complete name [] left right after lc rc starts ends =
    rw
      (inside_complete name left false (name ++ (right ++ b'}' ∷ b'}' ∷ after)) lc (record {
        right = right;
        after = after;
        shape = refl;
        clean = rc;
        starts = starts;
        ends = ends;
      }))
      refl
mentions_complete name (c ∷ before) left right after lc rc starts ends =
    rw (mentions_complete name before left right after lc rc starts ends) (ground arith)

-- The pattern of `referencesSecretVar` finds exactly the templates that hold the name as a whole word.
pub mentions_iff : (name t : Text) → (mentions name t ≡ true) ↔ Mentions name t
mentions_iff name t = (
  mentions_sound name t,
  λ m.
      subst (λ (s : Text). mentions name s ≡ true) (sym m.shape)
        (mentions_complete name m.before m.left m.right m.after m.left_clean m.right_clean m.starts
          m.ends),
)
