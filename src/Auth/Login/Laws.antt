-- ===== src/Auth/Login/Laws.antt =====
-- What a login guarantees.
use nest_js_tutorial.Base.{◌≡◌, refl, sym, ap, ◌∙◌, Bool, true, false, Option, none, some, Text}
use nest_js_tutorial.Runtime.{returned, M}
use nest_js_tutorial.Runtime.Inversion.{after-returned, pure-returned}
use nest_js_tutorial.Database.{User}
use nest_js_tutorial.Auth.Login.{AuthLoginRequest, hash_of, matching_user, login}

matching_user-returned :
    {S : Type 0} (found : Option User) (password_matches : Bool) (user : User) (s s' : S)
    → matching_user found password_matches s ≡ (returned user, s')
    → (found ≡ some user) × (password_matches ≡ true) × (s' ≡ s)
matching_user-returned none b user s s' h = cc
matching_user-returned (some u) true user s s' h = (cc, refl, cc)
matching_user-returned (some u) false user s s' h = cc

module _ {S : Type 0} (consume : Text → Option Text → M S (Unit {0}))
    (find_by_email : Text → M S (Option User)) (verify_password : Text → Text → M S Bool)
    (issue : Text → M S Text) where
  -- The calls of a login that succeeds, each from the state that the one before has left.
  pub record IsLoggedIn (request : AuthLoginRequest) (token : Text) (user : User) (s s' : S)
      : Type 0 where
    pub counted : S
    pub found : S
    pub checked : S
    pub consumed : consume request.email request.ip_address s ≡ (returned tt, counted)
    pub known : find_by_email request.email counted ≡ (returned (some user), found)
    pub verified :
        verify_password user.password_hash request.password found ≡ (returned true, checked)
    pub issued : issue user.username checked ≡ (returned token, s')

  -- A login succeeds only if the rate limiter has let it through, the email is known, the password
  -- matches the hash of that user, and the token has been issued for that user.
  pub login_returned :
      (request : AuthLoginRequest) (token : Text) (user : User) (s s' : S)
      → login consume find_by_email verify_password issue request s ≡ (returned (token, user), s')
      → IsLoggedIn request token user s s'
  unfolding login
  login_returned request token user s s' h =
      let (_, t, consumed, h) = after-returned (consume request.email request.ip_address s) _ h in
      let (found, t₂, looked, h) = after-returned (find_by_email request.email t) _ h in
      let (ok, t₃, checked, h) =
        after-returned (verify_password (hash_of found) request.password t₂) _ h in
      let (u, t₄, matched, h) = after-returned (matching_user found ok t₃) _ h in
      let (is_user, is_ok, same) = matching_user-returned found ok u t₃ t₄ matched in
      let (tok, t₅, issued, h) = after-returned (issue u.username t₄) _ h in
      let (shows, ends) = pure-returned (tok, u) (token, user) t₅ s' h in
      let same_user : user ≡ u = ap (λ x. x.1) shows in
      let same_token : token ≡ tok = ap (λ x. x.0) shows in
      assemble request found ok u tok token user s t t₂ t₃ t₄ t₅ s' consumed looked checked is_user
        is_ok same issued same_user same_token ends
    where
      assemble :
          (request : AuthLoginRequest) (found : Option User) (ok : Bool) (u : User)
          (tok token : Text) (user : User) (s t t₂ t₃ t₄ t₅ s' : S)
          → consume request.email request.ip_address s ≡ (returned tt, t)
          → find_by_email request.email t ≡ (returned found, t₂)
          → verify_password (hash_of found) request.password t₂ ≡ (returned ok, t₃)
          → found ≡ some u
          → ok ≡ true
          → t₄ ≡ t₃
          → issue u.username t₄ ≡ (returned tok, t₅)
          → user ≡ u
          → token ≡ tok
          → s' ≡ t₅
          → IsLoggedIn request token user s s'
      assemble request found ok u tok token user s t t₂ t₃ t₄ t₅ s' a b c is_user is_ok same d
            same_user same_token ends =
          record {
            counted = t;
            found = t₂;
            checked = t₃;
            consumed = a;
            known = cc;
            verified =
                let hash : hash_of found ≡ user.password_hash =
                  ap hash_of is_user ∙ ap User.password_hash (sym same_user) in
                cc hash;
            issued = cc;
          }
