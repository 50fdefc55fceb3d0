-- ===== src/Tests/Sessions.antt =====
-- Tokens, the current user, and logins past the limit.
use nest_js_tutorial.Base.{
  ℕ, ◌≡◌, ◌≤◌, ◌<◌, ◌+◌, ◌*◌, ◌/◌, refl, Bool, true, Text, codes, Option, none, some, [], ◌∷◌, ◌==◌,
  find, arith, ltb, if◌then◌else◌,
}
use nest_js_tutorial.Runtime.{Exception, Value, Outcome, returned, thrown, M}
use nest_js_tutorial.Database.{World, User}
use nest_js_tutorial.Database.Statements.{user_by_username}
use nest_js_tutorial.Database.Reliable.{steady_orm}
use nest_js_tutorial.Database.ReadOnly.{IsReadOnly}
use nest_js_tutorial.Serializers.{SerializedUser}
use nest_js_tutorial.Auth.Tokens.{TokenConfig, token_lifetime_seconds}
use nest_js_tutorial.Auth.DenyList.{Keys}
use nest_js_tutorial.Auth.Guard.{token_error}
use nest_js_tutorial.Auth.Session.{guard, logout_route}
use nest_js_tutorial.Auth.Session.Laws.{issued_claims, session_closed}
use nest_js_tutorial.Auth.Limiter.{Counter, Counters, consume}
use nest_js_tutorial.Auth.Login.{AuthLoginRequest}
use nest_js_tutorial.Auth.Login.Limited.{too_many_requests, limited_response, login_limited}
use nest_js_tutorial.Auth.CurrentUser.{UpdateUserRequest, update_user}
use nest_js_tutorial.Auth.CurrentUser.Laws.{IsUserUpdate, update_user_returned}
use nest_js_tutorial.Common.Filter.{format_api_exception}
use nest_js_tutorial.Tests.Data.{sample, world, jane, result}

abbrev config : TokenConfig
config = record { audience = codes "app"; issuer = codes "app" }

-- The token that was signed at 5000 ms, for Jane.
abbrev jane_claims : Value
jane_claims = issued_claims config 5000 (codes "id") (codes "jane")

-- A verification that knows this one token, and its expiry after 905 seconds.
abbrev verify : ℕ → Text → Outcome Value
verify t token =
    if ltb t 905000 then returned jane_claims else thrown (Exception.other_error (codes "expired"))

verify_live :
    (u : ℕ)
    → u < (5000 / 1000 + token_lifetime_seconds) * 1000
    → verify u (codes "abc") ≡ returned jane_claims
verify_live u h = ground arith

verify_expired :
    (u : ℕ)
    → (5000 / 1000 + token_lifetime_seconds) * 1000 ≤ u
    → verify u (codes "abc") ≡ thrown (Exception.other_error (codes "expired"))
verify_expired u h = ground arith

abbrev no_keys : Keys
no_keys key = none

session_example :
    (guard verify 9000 (some (codes "Token abc")) (logout_route 8000 jane_claims no_keys).1).0
    ≡ thrown (token_error (codes "is invalid"))
session_example =
    session_closed verify config 5000 (codes "id") (codes "jane") 97 (codes "bc") 8000 9000 no_keys
      (codes "expired") refl refl refl refl refl (omega arith) verify_live verify_expired

abbrev plain : Text → Text
plain s = s

abbrev finds_jane : Text → M Counters (Option User)
finds_jane email s = (returned (some jane), s)

abbrev accepts : Text → Text → M Counters Bool
accepts hash password s = (returned true, s)

abbrev issues : Text → M Counters Text
issues username s = (returned (codes "token"), s)

abbrev full : Counter
full = record { value = 5; expires_at = 60000 }

abbrev counters : Counters
counters key = some full

abbrev by_jane : AuthLoginRequest
by_jane = record { email = codes "jane@example.com"; ip_address = none; password = codes "pw" }

login_limited_example :
    (limited_response plain plain finds_jane accepts issues 30000 by_jane counters ≡ (
      thrown too_many_requests,
      (consume plain plain 30000 (codes "jane@example.com") none counters).1,
    ))
    × (format_api_exception too_many_requests
        ≡ record { body = (codes "body", codes "too many requests" ∷ []) ∷ []; status_code = 429 })
login_limited_example =
    login_limited plain plain finds_jane accepts issues 30000 by_jane counters full refl
      (omega arith) (omega arith)

abbrev signs : Text → M (World (Unit {0})) Text
signs username w = (returned (codes "new"), w)

signs-IsReadOnly : (username : Text) → IsReadOnly (signs username)
signs-IsReadOnly username = record { keeps = λ w. refl }

abbrev new_bio : UpdateUserRequest
new_bio = record { bio = some (some (codes "hello")); image = none }

abbrev changed : Outcome SerializedUser × World (Unit {0})
changed = update_user steady_orm 9 signs (codes "jane") new_bio world

abbrev no_user : SerializedUser
no_user = record { bio = none; email = []; image = none; token = []; username = [] }

abbrev shown_user : SerializedUser
shown_user = result changed.0 no_user

update_user_example :
    (token : Text) × (t : World (Unit {0})) × (signs (codes "jane") world ≡ (returned token, t))
    × IsUserUpdate (codes "jane") new_bio sample changed.1.db token shown_user
unfolding update_user user_by_username find ◌==◌
update_user_example =
    update_user_returned steady_orm 9 signs (codes "jane") new_bio world changed.1 shown_user
      (signs-IsReadOnly (codes "jane")) refl

abbrev unknown : World (Unit {0})
unknown = (update_user steady_orm 9 signs (codes "nobody") new_bio world).1
