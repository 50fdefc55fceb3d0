-- ===== src/Auth/Guard/Laws.antt =====
-- Whom the guards let through.
use nest_js_tutorial.Base.{
  ◌≡◌, sym, ap, ◌∙◌, Bool, true, false, not, not-false, Text, codes, inl, inr, ◌⊎◌,
}
use nest_js_tutorial.Runtime.{Exception, Value, returned, thrown, M, throw_if}
use nest_js_tutorial.Runtime.Inversion.{
  after-returned, recover-returned, recover-rethrown, throw_if-returned, pure-returned,
}
use nest_js_tutorial.Common.Filter.{get_property, text_of}
use nest_js_tutorial.Auth.Guard.{is_token_claims, authenticate_error, authenticate}

module _ {S : Type 0} (verify : Text → M S Value) (denied : Text → M S Bool) where
  -- The token has been verified, its claims are complete, and the deny list has been asked and does not
  -- have it.
  pub record IsAuthenticated (token : Text) (claims : Value) (s s' : S) : Type 0 where
    pub verified : S
    pub is_verified : verify token s ≡ (returned claims, verified)
    pub complete : is_token_claims claims ≡ true
    pub not_denied :
        denied (text_of (get_property (codes "jti") claims)) verified ≡ (returned false, s')

  -- A token is accepted only if it has been verified, has all its claims, and is not on the deny list.
  pub authenticate_returned :
      (token : Text) (claims : Value) (s s' : S)
      → authenticate verify denied token s ≡ (returned claims, s')
      → IsAuthenticated token claims s s'
  unfolding authenticate
  authenticate_returned token claims s s' h =
      let run = recover-returned _ authenticate_error h in
      let (c, t, checked, run) = after-returned (verify token s) _ run in
      let (_, t₂, complete, run) =
        after-returned (throw_if (not (is_token_claims c)) Exception.auth_invalid_token t) _ run in
      let (is_complete, same) = throw_if-returned _ _ t t₂ _ complete in
      let (refused, t₃, asked, run) =
        after-returned (denied (text_of (get_property (codes "jti") c)) t₂) _ run in
      let (_, t₄, passes, run) =
        after-returned (throw_if refused Exception.auth_invalid_token t₃) _ run in
      let (not_refused, same') = throw_if-returned _ _ t₃ t₄ _ passes in
      let (shows, ends) = pure-returned c claims t₄ s' run in
      assemble token c claims s t t₂ t₃ s' refused checked (not-false _ is_complete) same asked
        not_refused (ends ∙ sym same') shows
    where
      assemble :
          (token : Text) (c claims : Value) (s t t₂ t₃ s' : S) (refused : Bool)
          → verify token s ≡ (returned c, t)
          → is_token_claims c ≡ true
          → t ≡ t₂
          → denied (text_of (get_property (codes "jti") c)) t₂ ≡ (returned refused, t₃)
          → refused ≡ false
          → s' ≡ t₃
          → claims ≡ c
          → IsAuthenticated token claims s s'
      assemble token c claims s t t₂ t₃ s' refused a b same asked no_refusal ends shows = record {
        verified = t;
        is_verified = cc;
        complete = ap is_token_claims shows ∙ b;
        not_denied = cc;
      }

  -- The errors of `authenticate`: a token is refused also where the deny list cannot be asked.
  pub authenticate_thrown :
      (token : Text) (s s' : S) (e : Exception)
      → authenticate verify denied token s ≡ (thrown e, s')
      → (e ≡ Exception.auth_invalid_token) ⊎ (e ≡ Exception.token_deny_list_unavailable)
  unfolding authenticate
  authenticate_thrown token s s' e h =
      let (e', same) = recover-rethrown _ authenticate_error h in declared e' e same
    where
      declared :
          (e' e : Exception)
          → e ≡ authenticate_error e'
          → (e ≡ Exception.auth_invalid_token) ⊎ (e ≡ Exception.token_deny_list_unavailable)
      declared Exception.token_deny_list_unavailable e h = inr h
      declared e' e h = inl h
