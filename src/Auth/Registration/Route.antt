-- ===== src/Auth/Registration/Route.antt =====
-- The route of the registration: AuthController.register and createToken (auth/auth.controller.ts). The
-- logs of failures are left out.
pub mod Laws
use nest_js_tutorial.Base.{Option, none, Text, codes}
use nest_js_tutorial.Runtime.{
  Exception, Outcome, returned, thrown, M, pure, throw, ◌>>=◌, try_catch, errors_body,
}
use nest_js_tutorial.Database.{Orm, World}
use nest_js_tutorial.Serializers.{SerializedUser}
use nest_js_tutorial.Auth.Registration.{
  RegisterRequest, Generated, lift, register, register_response_error,
}

abbrev pub request_failed : Exception
request_failed = Exception.http 500 (errors_body (codes "body") (codes "request failed"))

-- `serializeUser({ ...user, bio: null, image: null }, token)`
abbrev pub registered_user : Text → Text × Text → SerializedUser
registered_user token (email, username) = record {
  bio = none;
  email = email;
  image = none;
  token = token;
  username = username;
}

-- `issue` signs a token for a name (issueToken).
module _ (orm : Orm) (hash_password issue : Text → Outcome Text) (new : Generated) where
  -- createToken
  unfoldable pub create_token : Text → M (World orm.Env) Text
  create_token username = try_catch (lift (issue username)) (λ e. throw request_failed)

  -- `register` of the controller.
  unfoldable pub register_route : RegisterRequest → M (World orm.Env) SerializedUser
  unfolding create_token register register_response_error
  register_route request = do
    token ← create_token request.username
    user ←
        try_catch (register orm hash_password new request) (λ e. throw (register_response_error e))
    pure (registered_user token user)
