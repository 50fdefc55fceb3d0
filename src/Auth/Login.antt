-- ===== src/Auth/Login.antt =====
-- AuthService.login, and the errors of its route (auth/auth.service.ts,
-- auth/auth.controller.ts).
pub mod Laws
pub mod Limited
use nest_js_tutorial.Base.{ℕ, Bool, true, false, not, ◌||◌, Option, none, some, Text, codes, String}
use nest_js_tutorial.Runtime.{
  Exception, M, pure, throw, throw_if, ◌>>=◌, ◌>>◌, try_catch, errors_body,
}
use nest_js_tutorial.Database.{User}
use nest_js_tutorial.Serializers.{SerializedUser, serialize_user}

-- AuthLoginRequest
pub record AuthLoginRequest : Type 0 where
  pub email : Text
  pub ip_address : Option Text
  pub password : Text

abbrev pub timing_parity_password_hash : Text
timing_parity_password_hash =
    codes
      "$argon2id$v=19$m=65536,p=4,t=3$5KRxbfPDDZVDeWkvkmtU/A$S35kHKRLUx3/W9bsRHOpGrKsMfGn3d/ttbh08m4GWGg"

-- `user?.passwordHash ?? TIMING_PARITY_PASSWORD_HASH`
abbrev pub hash_of : Option User → Text
hash_of none = timing_parity_password_hash
hash_of (some user) = user.password_hash

-- `if (!user || !passwordMatches) throw …`, after which the user is there.
abbrev pub matching_user : {S : Type 0} → Option User → Bool → M S User
matching_user none password_matches = throw Exception.auth_invalid_credentials
matching_user (some user) password_matches = do
  throw_if (not password_matches) Exception.auth_invalid_credentials
  pure user

-- The `catch` block of AuthController.login.
unfoldable pub login_response_error : Exception → Exception
login_response_error Exception.auth_invalid_credentials =
    Exception.http 401 (errors_body (codes "credentials") (codes "invalid"))
login_response_error Exception.auth_login_rate_limit =
    Exception.http 429 (errors_body (codes "body") (codes "too many requests"))
login_response_error e = Exception.http 500 (errors_body (codes "body") (codes "request failed"))

-- The services that the login calls: the rate limiter, the lookup by email, the password verifier
-- (argon2) and the token issuer (JWT).
module _ {S : Type 0} (consume : Text → Option Text → M S (Unit {0}))
    (find_by_email : Text → M S (Option User)) (verify_password : Text → Text → M S Bool)
    (issue : Text → M S Text) where
  -- AuthService.login
  unfoldable pub login : AuthLoginRequest → M S (Text × User)
  login request = do
    consume request.email request.ip_address
    found ← find_by_email request.email
    password_matches ← verify_password (hash_of found) request.password
    user ← matching_user found password_matches
    token ← issue user.username
    pure (token, user)

  -- AuthController.login
  unfoldable pub login_response : AuthLoginRequest → M S SerializedUser
  unfolding login login_response_error
  login_response request =
      try_catch (login request >>= λ answer. pure (serialize_user answer.1 answer.0))
        (λ e. throw (login_response_error e))
