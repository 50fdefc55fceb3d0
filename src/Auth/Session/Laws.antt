-- ===== src/Auth/Session/Laws.antt =====
-- A token is accepted from its issue until it expires or its user logs out, and not afterwards.
use nest_js_tutorial.Base.{
  ℕ, ◌+◌, ◌*◌, ◌/◌, ◌≤◌, ◌<◌, ◌≡◌, refl, ap, ◌∙◌, Bool, true, false, Option, some, Text, codes,
  ◌==◌, ◌++◌, arith, ◌∷◌, Bool-cases, inl, inr,
}
use native.Mathlib.Decide.{dec_lt}
use nest_js_tutorial.Runtime.{Exception, Value, str, num, Outcome, returned, thrown}
use nest_js_tutorial.Common.Filter.{get_property, get_field}
use nest_js_tutorial.Auth.DenyList.{Keys, deny, is_denied, deny_lem}
use nest_js_tutorial.Auth.Tokens.{TokenConfig, token_lifetime_seconds, create_token_claims}
use nest_js_tutorial.Auth.Guard.{
  is_empty, is_token_claims, authenticate, activate, can_activate, token_error,
}
use nest_js_tutorial.Auth.Guard.Header.{has_no_space, get_token_lem}
use nest_js_tutorial.Auth.Session.{logout, logout_route, verify_at, denied_at, guard}

-- The claims of a token that has been issued at a time in milliseconds.
abbrev pub issued_claims : TokenConfig → ℕ → Text → Text → Value
issued_claims config now uuid username =
    create_token_claims config username uuid (now / 1000) (now / 1000 + token_lifetime_seconds)

module _ (config : TokenConfig) (issued_at : ℕ) (uuid username : Text) where
  abbrev claims : Value
  claims = issued_claims config issued_at uuid username

  -- The claims name the token and its user, and hold for 15 minutes.
  claims_fields :
      (get_property (codes "jti") claims ≡ str uuid)
      × (get_property (codes "sub") claims ≡ str username)
      × (get_property (codes "exp") claims ≡ num (issued_at / 1000 + token_lifetime_seconds))
  unfolding create_token_claims get_field ◌==◌
  claims_fields = (refl, refl, refl)

  claims_complete :
      is_empty config.audience ≡ false
      → is_empty config.issuer ≡ false
      → is_empty uuid ≡ false
      → is_empty username ≡ false
      → is_token_claims claims ≡ true
  unfolding is_token_claims create_token_claims get_field ◌==◌
  claims_complete a i u n = rw (a, i, u, n) refl

-- What the guard makes of a verified token.
abbrev admitted : Bool → Value × Text → Keys → Outcome (Value × Text) × Keys
admitted true r keys = (thrown (token_error (codes "is invalid")), keys)
admitted false r keys = (returned r, keys)

module _ (verify : ℕ → Text → Outcome Value) (config : TokenConfig) (issued_at : ℕ)
    (uuid username : Text) (c : ℕ) (s : Text) where
  abbrev claims' : Value
  claims' = issued_claims config issued_at uuid username

  abbrev header : Option Text
  header = some (codes "Token " ++ c ∷ s)

  activated :
      (t : ℕ) (keys : Keys)
      → is_token_claims claims' ≡ true
      → verify t (c ∷ s) ≡ returned claims'
      → activate (verify_at verify t) (denied_at verify t) (some (c ∷ s)) keys
        ≡ admitted (is_denied t uuid keys) (claims', c ∷ s) keys
  unfolding activate authenticate create_token_claims get_field ◌==◌ is_denied
  activated t keys complete verified = elim (Bool-cases (is_denied t uuid keys)) [
    | inl refused ↦ simp (verified, complete, refused)
    | inr open_still ↦ simp (verified, complete, open_still)
  ]

  unactivated :
      (t : ℕ) (keys : Keys) (name : Text)
      → verify t (c ∷ s) ≡ thrown (Exception.other_error name)
      → (activate (verify_at verify t) (denied_at verify t) (some (c ∷ s)) keys).0
        ≡ thrown (token_error (codes "is invalid"))
  unfolding activate authenticate
  unactivated t keys name failed = simp failed

  guard_verified :
      (t : ℕ) (keys : Keys)
      → has_no_space (c ∷ s) ≡ true
      → is_token_claims claims' ≡ true
      → verify t (c ∷ s) ≡ returned claims'
      → guard verify t header keys ≡ admitted (is_denied t uuid keys) (claims', c ∷ s) keys
  unfolding guard can_activate
  guard_verified t keys h complete verified =
      ap (λ o. activate (verify_at verify t) (denied_at verify t) o keys) (get_token_lem c s h)
      ∙ activated t keys complete verified

  guard_unverified :
      (t : ℕ) (keys : Keys) (name : Text)
      → has_no_space (c ∷ s) ≡ true
      → verify t (c ∷ s) ≡ thrown (Exception.other_error name)
      → (guard verify t header keys).0 ≡ thrown (token_error (codes "is invalid"))
  unfolding guard can_activate
  guard_unverified t keys name h failed =
      ap (λ o. (activate (verify_at verify t) (denied_at verify t) o keys).0) (get_token_lem c s h)
      ∙ unactivated t keys name failed

  -- The keys after a logout at a time.
  abbrev pub after_logout : ℕ → Keys → Keys
  after_logout t keys = (logout_route t claims' keys).1

  after_logout-deny :
      (t : ℕ) (keys : Keys)
      → after_logout t keys ≡ deny t (issued_at / 1000 + token_lifetime_seconds) uuid keys
  unfolding logout_route logout create_token_claims get_field ◌==◌
  after_logout-deny t keys = refl

  -- A token that is verified and not on the deny list is accepted, with the claims of the user for whom
  -- it was issued.
  pub session_open :
      (t : ℕ) (keys : Keys)
      → has_no_space (c ∷ s) ≡ true
      → is_empty config.audience ≡ false
      → is_empty config.issuer ≡ false
      → is_empty uuid ≡ false
      → is_empty username ≡ false
      → verify t (c ∷ s) ≡ returned claims'
      → is_denied t uuid keys ≡ false
      → (guard verify t header keys ≡ (returned (claims', c ∷ s), keys))
        × (get_property (codes "sub") claims' ≡ str username)
  session_open t keys h a i u n verified open_still = (
    guard_verified t keys h (claims_complete config issued_at uuid username a i u n) verified
        ∙ ap (λ b. admitted b (claims', c ∷ s) keys) open_still,
    (claims_fields config issued_at uuid username).1,
  )

  -- After a logout with an issued token, the guard answers at every later time that the token is
  -- invalid, if JWT verifies the token until it expires and refuses it from then on.
  pub session_closed :
      (t₁ t : ℕ) (keys : Keys) (name : Text)
      → has_no_space (c ∷ s) ≡ true
      → is_empty config.audience ≡ false
      → is_empty config.issuer ≡ false
      → is_empty uuid ≡ false
      → is_empty username ≡ false
      → t₁ ≤ t
      → ((u : ℕ)
          → u < (issued_at / 1000 + token_lifetime_seconds) * 1000
          → verify u (c ∷ s) ≡ returned claims')
      → ((u : ℕ)
          → (issued_at / 1000 + token_lifetime_seconds) * 1000 ≤ u
          → verify u (c ∷ s) ≡ thrown (Exception.other_error name))
      → (guard verify t header (after_logout t₁ keys)).0 ≡ thrown (token_error (codes "is invalid"))
  session_closed t₁ t keys name h a i u n later verifies expires =
      let complete = claims_complete config issued_at uuid username a i u n in
      let exp = issued_at / 1000 + token_lifetime_seconds in
      let left = after_logout t₁ keys in
      elim (dec_lt t (exp * 1000)) [
        | yes live ↦
            let denied : is_denied t uuid left ≡ true =
              ap (is_denied t uuid) (after_logout-deny t₁ keys)
              ∙ deny_lem t₁ exp t uuid keys later live in
            ap (λ o. o.0) (guard_verified t left h complete (verifies t live))
            ∙ ap (λ b. (admitted b (claims', c ∷ s) left).0) denied
        | no over ↦ guard_unverified t left name h (expires t (omega arith))
      ]
