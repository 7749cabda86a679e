-- ===== src/Tokens.antt =====
-- utils/token-utils.ts: the parts of a token, and the project that a direct start is for. Texts are lists
-- of code points.
pub mod Parsing
pub mod Resolving
mod Tests
use ai_support_agent_cli.Common.{
  ℕ, Bool, true, false, not, ◌&&◌, ◌||◌, Option, none, some, List, [], ◌∷◌, if◌then◌else◌, ◌==◌,
  is_empty,
}
use ai_support_agent_cli.Common.Text.{Text, split, text_eq}

pub record ParsedToken : Type 0 where
  pub tenant_code : Text
  pub token_id : Text
  pub raw_token : Text

abbrev pub three_parts : List Text → Option (Text × Text × Text)
three_parts [] = none
three_parts (a ∷ []) = none
three_parts (a ∷ b ∷ []) = none
three_parts (a ∷ b ∷ c ∷ []) = some (a, b, c)
three_parts (a ∷ b ∷ c ∷ d ∷ rest) = none

abbrev pub parsed : Option (Text × Text × Text) → Option ParsedToken
parsed none = none
parsed (some (a, b, c)) =
    if is_empty a || (is_empty b || is_empty c)
    then none
    else some (record { tenant_code = a; token_id = b; raw_token = c })

unfoldable pub parse_token : Text → Option ParsedToken
parse_token token = parsed (three_parts (split b':' token))

abbrev pub second : Option (Text × Text × Text) → Option Text
second none = none
second (some (a, b, c)) = some b

unfoldable pub extract_token_id : Text → Option Text
extract_token_id token = second (three_parts (split b':' token))

-- The first of three parts or more.
abbrev pub tenant_of : List Text → Text
tenant_of [] = []
tenant_of (a ∷ []) = []
tenant_of (a ∷ b ∷ []) = []
tenant_of (a ∷ b ∷ c ∷ rest) = a

unfoldable pub extract_tenant_code_from_token : Text → Text
extract_tenant_code_from_token token = tenant_of (split b':' token)

abbrev pub before : ℕ → Option (Text × Text) → Option (Text × Text)
before d none = none
before d (some (a, b)) = some (d ∷ a, b)

-- What stands before and after the first `c`: `substring` at `indexOf`.
unfoldable pub cut : ℕ → Text → Option (Text × Text)
cut c [] = none
cut c (d ∷ t) = let rest = cut c t in if d == c then some ([], t) else before d rest

unfoldable pub split_project_ref : Text → Option (Text × Text)
unfolding cut
split_project_ref ref = cut b'/' ref

pub data Target : Type 0 where
  target : Text → Text → Target  -- the tenant and the project
  invalid_project_format : Target
  tenant_mismatch : Text → Text → Target  -- the tenants of the token and of the project

abbrev pub checked : Text → Option (Text × Text) → Target
checked token_tenant none = invalid_project_format
checked token_tenant (some (tenant, project)) =
    if is_empty tenant || is_empty project
    then invalid_project_format
    else if not (is_empty token_tenant) && not (text_eq token_tenant tenant)
    then tenant_mismatch token_tenant tenant
    else target tenant project

-- `project` is the flag, `none` when it is not given.
unfoldable pub resolve_direct_start_target : Text → Option Text → Text × Text → Target
unfolding cut extract_tenant_code_from_token
resolve_direct_start_target token none fallback = target fallback.0 fallback.1
resolve_direct_start_target token (some project) fallback =
    if is_empty project
    then target fallback.0 fallback.1
    else checked (extract_tenant_code_from_token token) (cut b'/' project)
