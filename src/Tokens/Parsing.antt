-- ===== src/Tokens/Parsing.antt =====
-- utils/token-utils.ts: a token that is put together from three parts gives the parts back.
use ai_support_agent_cli.Common.{
  ℕ, true, false, some, List, [], ◌∷◌, ◌++◌, ◌≡◌, ◌∙◌, ◌≢◌, refl, ◌==◌, arith, is_empty, All,
}
use ai_support_agent_cli.Common.Text.{Text, split}
use ai_support_agent_cli.Tokens.{
  ParsedToken, parse_token, extract_token_id, extract_tenant_code_from_token,
}

-- The text does not have the character `c`.
abbrev pub Free : ℕ → Text → Type 0
Free c t = All (λ d. (d == c) ≡ false) t

self_eq : (n : ℕ) → (n == n) ≡ true
self_eq n = ground arith

split-separator :
    (c : ℕ) (segments : List Text) (t : Text)
    → split c t ≡ segments
    → split c (c ∷ t) ≡ [] ∷ segments
unfolding split
split-separator c [] t h = rw h refl
split-separator c (s ∷ segments) t h = rw h (rw (self_eq c) refl)

split-append : (c : ℕ) (a t : Text) → Free c a → split c (a ++ (c ∷ t)) ≡ a ∷ split c t
unfolding split
split-append c [] t h = split-separator c (split c t) t refl
split-append c (d ∷ a) t (n, h) = rw (split-append c a t h, n) refl

split-Free : (c : ℕ) (a : Text) → Free c a → split c a ≡ a ∷ []
unfolding split
split-Free c [] h = refl
split-Free c (d ∷ a) (n, h) = rw (split-Free c a h, n) refl

nonempty : (a : Text) → a ≢ [] → is_empty a ≡ false
nonempty [] n = absurd (n refl)
nonempty (d ∷ a) n = refl

abbrev pub token_of : ParsedToken → Text
token_of p = p.tenant_code ++ (b':' ∷ (p.token_id ++ (b':' ∷ p.raw_token)))

abbrev pub WellFormed : ParsedToken → Type 0
WellFormed p =
    (Free b':' p.tenant_code × (p.tenant_code ≢ []))
    × (Free b':' p.token_id × (p.token_id ≢ []))
    × (Free b':' p.raw_token × (p.raw_token ≢ []))

split-token_of :
    (p : ParsedToken)
    → WellFormed p
    → split b':' (token_of p) ≡ p.tenant_code ∷ p.token_id ∷ p.raw_token ∷ []
split-token_of p ((f, n), (g, m), (h, k)) =
    split-append b':' p.tenant_code (p.token_id ++ (b':' ∷ p.raw_token)) f
    ∙ rw (split-append b':' p.token_id p.raw_token g, split-Free b':' p.raw_token h) refl

-- A token that is made of three parts, none of them empty or with a colon, is parsed into these parts, and
-- the two functions that take one part out of it agree.
pub parse_token-token_of :
    (p : ParsedToken)
    → WellFormed p
    → (parse_token (token_of p) ≡ some p)
      × (extract_token_id (token_of p) ≡ some p.token_id)
      × (extract_tenant_code_from_token (token_of p) ≡ p.tenant_code)
unfolding parse_token extract_token_id extract_tenant_code_from_token
parse_token-token_of p w =
    let ((f, n), (g, m), (h, k)) = w in
    rw (split-token_of p w) (
      rw (nonempty p.tenant_code n, nonempty p.token_id m, nonempty p.raw_token k) refl,
      refl,
      refl,
    )
