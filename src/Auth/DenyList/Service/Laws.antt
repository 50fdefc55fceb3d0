-- ===== src/Auth/DenyList/Service/Laws.antt =====
-- The deny list where Redis answers, and the guard where it does not.
use nest_js_tutorial.Base.{
  ℕ, ◌-◌, ◌/◌, ◌≡◌, ◌⊎◌, inl, inr, refl, sym, ap, ◌∙◌, Bool, true, false, Bool-cases, Option, none,
  some, Text, codes, eqb,
}
use nest_js_tutorial.Runtime.{
  Exception, Value, Outcome, returned, thrown, M, pure, throw, after, recover,
}
use nest_js_tutorial.Common.Filter.{get_property, text_of}
use nest_js_tutorial.Auth.DenyList.{Keys, deny_list_key, deny, is_present, is_denied}
use nest_js_tutorial.Auth.DenyList.Service.{
  TokenDenyListClient, is_some, deny_token, is_token_denied, value_if, redis_client,
}
use nest_js_tutorial.Auth.Guard.{
  token_error, authenticate, guard_error, activate, get_token, can_activate,
}
use nest_js_tutorial.Auth.Guard.Laws.{authenticate_returned, authenticate_thrown}

is_some-value_if : (b : Bool) → is_some (value_if b) ≡ b
is_some-value_if true = refl
is_some-value_if false = refl

-- Over a Redis that answers, the service keeps the list of tokens with their times.
pub service_lem :
    (now exp : ℕ) (jti : Text) (keys : Keys)
    → (deny_token (redis_client now) now exp jti keys ≡ (returned tt, deny now exp jti keys))
      × (is_token_denied (redis_client now) jti keys ≡ (returned (is_denied now jti keys), keys))
unfolding deny_token is_token_denied deny is_denied
service_lem now exp jti keys =
    let ttl_seconds = exp - now / 1000 in
    (
      elim (Bool-cases (eqb ttl_seconds 0)) [
        | inl expired ↦ rw expired refl
        | inr later ↦ rw later refl
      ],
      ap (λ b. (returned b, keys)) (is_some-value_if (is_present now (keys (deny_list_key jti)))),
    )

module _ {S : Type 0} (verify : Text → M S Value) (client : TokenDenyListClient S)
    (unreachable : (key : Text) (s : S) → (e : Exception) × ((client.get key s).0 ≡ thrown e)) where
  asked_lem :
      (o : Outcome (Option Text) × S) (e : Exception)
      → o.0 ≡ thrown e
      → (recover
          (after {B = Bool} o (λ value. pure (is_some value)))
          (λ e. throw Exception.token_deny_list_unavailable)).0
        ≡ thrown Exception.token_deny_list_unavailable
  asked_lem (returned v, s) e h = cc
  asked_lem (thrown f, s) e h = refl

  unavailable :
      (jti : Text) (s : S)
      → (is_token_denied client jti s).0 ≡ thrown Exception.token_deny_list_unavailable
  unfolding is_token_denied
  unavailable jti s =
      let (e, failed) = unreachable (deny_list_key jti) s in
      asked_lem (client.get (deny_list_key jti) s) e failed

  -- The three ways in which the guard refuses.
  abbrev pub IsRefused : Outcome (Value × Text) → Type 0
  IsRefused r =
      (r ≡ thrown (token_error (codes "is missing")))
      ⊎ ((r ≡ thrown (token_error (codes "is invalid")))
          ⊎ (r ≡ thrown Exception.token_deny_list_unavailable))

  refused :
      (token : Text) (s : S) (o : Outcome Value × S)
      → authenticate verify (is_token_denied client) token s ≡ o
      → IsRefused
          (recover
            (after {B = Value × Text} o (λ claims. pure (claims, token)))
            (λ e. throw (guard_error e))).0
  refused token s (returned claims, t) h =
      let i = authenticate_returned verify (is_token_denied client) token claims s t h in
      let bad =
        sym (ap (λ x. x.0) i.not_denied)
        ∙ unavailable (text_of (get_property (codes "jti") claims)) i.verified in
      cc
  refused token s (thrown e, t) h =
      elim (authenticate_thrown verify (is_token_denied client) token s t e h) [
        | inl is_invalid ↦ inr (inl (ap (λ e. thrown (guard_error e)) is_invalid))
        | inr closed ↦ inr (inr (ap (λ e. thrown (guard_error e)) closed))
      ]

  activated_or_refused :
      (token : Option Text) (s : S) → IsRefused (activate verify (is_token_denied client) token s).0
  unfolding activate
  activated_or_refused none s = inl refl
  activated_or_refused (some token) s =
      refused token s (authenticate verify (is_token_denied client) token s) refl

  -- While the deny list cannot be reached, the guard lets nobody through, whatever the header and the
  -- verification of tokens: the token is missing or invalid, or the deny list is unavailable.
  pub guard_fails_closed :
      (authorization : Option Text) (s : S)
      → IsRefused (can_activate verify (is_token_denied client) authorization s).0
  unfolding can_activate
  guard_fails_closed authorization s = activated_or_refused (get_token authorization) s
