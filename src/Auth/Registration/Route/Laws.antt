-- ===== src/Auth/Registration/Route/Laws.antt =====
-- How a request to register ends.
use nest_js_tutorial.Base.{
  ◌≡◌, inl, inr, refl, sym, ap, ◌∙◌, subst, Text, codes, List, [], ◌∷◌, ◌==◌,
}
use nest_js_tutorial.Runtime.{
  Exception, body, email, username, Outcome, returned, thrown, throw, try_catch,
}
use nest_js_tutorial.Runtime.Inversion.{
  after-returned, after-thrown, recover-thrown, recover-returned, pure-returned,
}
use nest_js_tutorial.Database.{Orm, World}
use nest_js_tutorial.Serializers.{SerializedUser}
use nest_js_tutorial.Auth.Registration.{
  RegisterRequest, Generated, lift, register, register_response_error,
}
use nest_js_tutorial.Auth.Registration.Laws.{
  IsRegistered, IsRegisteredAs, register_returned, register_atomic,
}
use nest_js_tutorial.Auth.Registration.Route.{
  request_failed, registered_user, create_token, register_route,
}
use nest_js_tutorial.Articles.Controller.Laws.{answer, IsOneOf, failed}
use nest_js_tutorial.Common.Filter.{
  FormattedApiException, format_api_exception, get_existing_errors, get_field,
}

abbrev pub register_answers : List FormattedApiException
register_answers =
    answer 409 (codes "username") (codes "has already been taken")
    ∷ answer 409 (codes "email") (codes "has already been taken")
    ∷ answer 409 (codes "body") (codes "has already been taken")
    ∷ failed
    ∷ []

register_answered :
    (e : Exception) → IsOneOf (format_api_exception (register_response_error e)) register_answers
unfolding register_response_error format_api_exception get_existing_errors get_field ◌==◌
register_answered (Exception.auth_conflict username) = inl refl
register_answered (Exception.auth_conflict email) = inr (inl refl)
register_answered (Exception.auth_conflict body) = inr (inr (inl refl))
register_answered e = inr (inr (inr (inl refl)))

failed_answered : IsOneOf (format_api_exception request_failed) register_answers
unfolding format_api_exception get_existing_errors get_field ◌==◌
failed_answered = inr (inr (inr (inl refl)))

module _ (orm : Orm) (hash_password issue : Text → Outcome Text) (new : Generated) where
  token_thrown :
      (name : Text) (o : Outcome Text) (w w' : World orm.Env) (e : Exception)
      → try_catch (lift o) (λ e. throw request_failed) w ≡ (thrown e, w')
      → (e ≡ request_failed) × (w' ≡ w)
  token_thrown name (returned t) w w' e h = cc
  token_thrown name (thrown f) w w' e h = (cc, cc)

  token_returned :
      (o : Outcome Text) (token : Text) (w w' : World orm.Env)
      → try_catch (lift o) (λ e. throw request_failed) w ≡ (returned token, w')
      → (o ≡ returned token) × (w' ≡ w)
  token_returned (returned t) token w w' h = (cc, cc)
  token_returned (thrown f) token w w' h = cc

  -- Whatever the driver does, if a request to register succeeds then the response shows the user with
  -- the token that was issued for the name, and exactly the new user and the mail have been stored.
  pub register_route_returned :
      (request : RegisterRequest) (w w' : World orm.Env) (r : SerializedUser)
      → register_route orm hash_password issue new request w ≡ (returned r, w')
      → (token : Text) × (issue request.username ≡ returned token)
        × (r ≡ registered_user token (request.email, request.username))
        × IsRegisteredAs hash_password new request (request.email, request.username) w.db w'.db
  unfolding register_route create_token
  register_route_returned request w w' r h =
      let (token, t, issued, h) = after-returned _ _ h in
      let (is_token, same) = token_returned (issue request.username) token w t issued in
      let (user, u, run, h) = after-returned _ _ h in
      let run =
        recover-returned (register orm hash_password new request t) register_response_error run in
      let (shows, ends) = pure-returned (registered_user token user) r u w' h in
      let (hash, is_hash, named, done) =
        register_returned orm hash_password new request t u user run in
      (
        token,
        is_token,
        shows ∙ ap (registered_user token) named,
        (
          hash,
          is_hash,
          refl,
          subst (λ x. IsRegistered new request hash (World.db x) w'.db) same
              (subst (λ x. IsRegistered new request hash t.db (World.db x)) (sym ends) done),
        ),
      )

  -- Whatever the driver does, a request to register that fails has changed no row, neither user nor
  -- mail, and its answer is one of four: a conflict of the username, of the email or of neither in
  -- particular, or the request has failed.
  pub register_route_answers :
      (request : RegisterRequest) (w w' : World orm.Env) (e : Exception)
      → register_route orm hash_password issue new request w ≡ (thrown e, w')
      → (w'.db ≡ w.db) × IsOneOf (format_api_exception e) register_answers
  unfolding register_route create_token
  register_route_answers request w w' e h = elim (after-thrown _ _ h) [
    | inl no_token ↦
        let (is_failed, same) =
          token_thrown request.username (issue request.username) w w' e no_token in
        (
          ap World.db same,
          subst (λ x. IsOneOf (format_api_exception x) register_answers) (sym is_failed)
              failed_answered,
        )
    | inr (token, t, issued, h) ↦
        let (is_token, same) = token_returned (issue request.username) token w t issued in
        elim (after-thrown _ _ h) [
          | inl refused ↦
              let (e', u, run, h) =
                recover-thrown (register orm hash_password new request t)
                  (λ e. throw (register_response_error e)) refused in
              let (kept, declared) = register_atomic orm hash_password new request t u e' run in
              let e_eq : register_response_error e' ≡ e = cc in
              let ends : w' ≡ u = cc in
              (
                ap World.db ends ∙ kept ∙ ap World.db same,
                subst (λ x. IsOneOf (format_api_exception x) register_answers) e_eq
                    (register_answered e'),
              )
          | inr (user, u, run, h) ↦ cc
        ]
  ]
