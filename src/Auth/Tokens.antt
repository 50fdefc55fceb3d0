-- ===== src/Auth/Tokens.antt =====
-- The claims of a token and its issue (auth/token-claims.ts, auth/auth-token-issuer.ts).
use nest_js_tutorial.Base.{ℕ, ◌+◌, ◌/◌, Text, codes}
use nest_js_tutorial.Runtime.{Value, str, num, obj, end, field, M}

-- AuthConfig, as far as a token needs it.
pub record TokenConfig : Type 0 where
  pub audience : Text
  pub issuer : Text

-- TOKEN_LIFETIME_SECONDS
abbrev pub token_lifetime_seconds : ℕ
token_lifetime_seconds = 900

-- createTokenClaims
unfoldable pub create_token_claims : TokenConfig → Text → Text → ℕ → ℕ → Value
create_token_claims config subject token_id issued_at expires_at = obj (
    field (codes "aud") (str config.audience) (
      field (codes "exp") (num expires_at) (
        field (codes "iat") (num issued_at) (
          field (codes "iss") (str config.issuer)
            (field (codes "jti") (str token_id) (field (codes "sub") (str subject) end))))))

-- issueToken, at a time in milliseconds and with a UUID. The signature (JWT) is a parameter.
unfoldable pub issue_token :
    {S : Type 0} → (Value → M S Text) → TokenConfig → ℕ → Text → Text → M S Text
unfolding create_token_claims
issue_token sign config now uuid username =
    let issued_at = now / 1000 in
    sign (create_token_claims config username uuid issued_at (issued_at + token_lifetime_seconds))
