-- ===== src/Auth/Session.antt =====
-- The life of a token: issued at a login, accepted by the guard, denied by a logout (AuthService.logout
-- and AuthController.logout), over the deny list of Redis.
pub mod Laws
use nest_js_tutorial.Base.{ℕ, Bool, true, false, Option, none, some, Text, codes}
use nest_js_tutorial.Runtime.{
  Exception, Value, null, undefined, bool, num, str, arr, obj, Outcome, returned, thrown, M, pure,
  throw, try_catch, errors_body,
}
use nest_js_tutorial.Common.Filter.{get_property, text_of}
use nest_js_tutorial.Auth.DenyList.{Keys, deny, is_denied}
use nest_js_tutorial.Auth.Guard.{authenticate, can_activate}

-- The number of a claim.
abbrev pub number_of : Value → ℕ
number_of (num n) = n
number_of _ = 0

-- AuthService.logout, of the claims that the guard has put on the request, at a time in milliseconds.
unfoldable pub logout : ℕ → Value → M Keys (Unit {0})
logout now claims keys = (
  returned tt,
  deny now (number_of (get_property (codes "exp") claims))
      (text_of (get_property (codes "jti") claims)) keys,
)

-- The `catch` block of AuthController.logout.
unfoldable pub logout_error : Exception → Exception
logout_error Exception.auth_logout_unavailable =
    Exception.http 500 (errors_body (codes "body") (codes "request failed"))
logout_error e = e

unfoldable pub logout_route : ℕ → Value → M Keys (Unit {0})
unfolding logout logout_error
logout_route now claims = try_catch (logout now claims) (λ e. throw (logout_error e))

-- The verification of a token at a time (JWT), and the question to the deny list at that time.
module _ (verify : ℕ → Text → Outcome Value) where
  abbrev pub verify_at : ℕ → Text → M Keys Value
  verify_at now token keys = (verify now token, keys)

  abbrev pub denied_at : ℕ → Text → M Keys Bool
  denied_at now jti keys = (returned (is_denied now jti keys), keys)

  -- The guard at a time, of the header `authorization`.
  unfoldable pub guard : ℕ → Option Text → M Keys (Value × Text)
  unfolding can_activate
  guard now authorization = can_activate (verify_at now) (denied_at now) authorization
