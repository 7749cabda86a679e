-- ===== src/Tokens/Tests.antt =====
-- Tokens and project flags at concrete texts.
use ai_support_agent_cli.Common.{none, some, [], ◌≡◌, refl}
use ai_support_agent_cli.Common.Text.{Text, codes, split}
use ai_support_agent_cli.Tokens.{
  ParsedToken, parse_token, extract_token_id, extract_tenant_code_from_token, cut, target,
  invalid_project_format, tenant_mismatch, resolve_direct_start_target,
}
use ai_support_agent_cli.Tokens.Parsing.{token_of, WellFormed, parse_token-token_of}

abbrev token : Text
token = codes "acme:id1:secret"

abbrev fallback : Text × Text
fallback = (codes "t", codes "p")

targets_computed :
    (resolve_direct_start_target token (some (codes "acme/web/x")) fallback
      ≡ target (codes "acme") (codes "web/x"))
    × (resolve_direct_start_target token (some (codes "other/web")) fallback
        ≡ tenant_mismatch (codes "acme") (codes "other"))
    × (resolve_direct_start_target token (some (codes "/web")) fallback ≡ invalid_project_format)
    × (resolve_direct_start_target token (some (codes "acme/")) fallback ≡ invalid_project_format)
    × (resolve_direct_start_target (codes "plain") (some (codes "other/web")) fallback
        ≡ target (codes "other") (codes "web"))
unfolding resolve_direct_start_target cut extract_tenant_code_from_token split
targets_computed = (refl, refl, refl, refl, refl)

tokens_computed :
    (parse_token (codes "a::c") ≡ none)
    × (parse_token (codes "a:b:c:d") ≡ none)
    × (extract_tenant_code_from_token (codes "a:b:c:d") ≡ codes "a")
    × (extract_token_id (codes "a::c") ≡ some [])
unfolding parse_token extract_tenant_code_from_token extract_token_id split
tokens_computed = (refl, refl, refl, refl)

abbrev parts : ParsedToken
parts = record { tenant_code = codes "ab"; token_id = codes "i"; raw_token = codes "s" }

parts-WellFormed : WellFormed parts
parts-WellFormed =
    (((refl, (refl, tt)), (λ h. cc)), ((refl, tt), (λ h. cc)), ((refl, tt), (λ h. cc)))

parse_token-token_of_example :
    (parse_token (token_of parts) ≡ some parts)
    × (extract_token_id (token_of parts) ≡ some parts.token_id)
    × (extract_tenant_code_from_token (token_of parts) ≡ parts.tenant_code)
parse_token-token_of_example = parse_token-token_of parts parts-WellFormed

abbrev flag : Text
flag = codes "acme/web"
