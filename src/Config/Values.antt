-- ===== src/Config/Values.antt =====
-- The numbers and required values of the environment: config/app-config.ts, config/auth-config.ts and
-- jobs/redis-database.ts. An environment gives each variable's text, if it is set.
pub mod Laws
use nest_js_tutorial.Base.{
  ℕ, Bool, true, false, not, ◌&&◌, ◌||◌, Option, none, some, Text, codes, ◌==◌, ltb, leb, eqb, List,
  [], ◌∷◌, if◌then◌else◌, trim, is_digit, is_decimal, digits_after, is_safe_integer, pos,
}
use nest_js_tutorial.Runtime.{Exception, Outcome, returned, thrown}

abbrev pub Environment : Type 0
Environment = Text → Option Text

-- The result of a synchronous call.
abbrev pub and_then : {A B : Type 0} → Outcome A → (A → Outcome B) → Outcome B
and_then (returned a) f = f a
and_then (thrown e) f = thrown e

-- parsePort. `Number(text)` of a text that is not a number is NaN, and is refused; here it is a
-- parameter that answers for the natural numbers, and `none` for any other number.
module _ (number : Text → Option ℕ) where
  abbrev in_range : Option ℕ → Outcome ℕ
  in_range none = thrown (Exception.other_error (codes "AppConfigValidationError"))
  in_range (some port) =
      if ltb port 1 || ltb 65535 port
      then thrown (Exception.other_error (codes "AppConfigValidationError"))
      else returned port

  unfoldable pub parse_port : Option Text → Outcome ℕ
  parse_port none = returned 3000
  parse_port (some value) = in_range (number value)

-- `/^(\d+)(kb|mb)$/i`: the digits, if the unit follows them.
abbrev to_lower : ℕ → ℕ
to_lower c = if eqb c 75 then 107 else if eqb c 66 then 98 else if eqb c 77 then 109 else c

abbrev is_unit : Text → Bool
is_unit [] = false
is_unit (a ∷ []) = false
is_unit (a ∷ b ∷ []) = (eqb (to_lower a) 107 || eqb (to_lower a) 109) && eqb (to_lower b) 98
is_unit (a ∷ b ∷ c ∷ s) = false

unfoldable pub body_size : ℕ → Text → Option ℕ
body_size n [] = none
body_size n (c ∷ s) =
    let more = body_size (digits_after n (c ∷ [])) s in
    if is_digit c then more else if is_unit (c ∷ s) then some n else none

-- `match[1]` needs a digit.
unfoldable pub body_match : Text → Option ℕ
unfolding body_size
body_match [] = none
body_match (c ∷ s) = if is_digit c then body_size 0 (c ∷ s) else none

abbrev pub or_default : Option Text → Text
or_default none = codes "100kb"
or_default (some value) = value

abbrev positive : Text → Option ℕ → Outcome Text
positive limit none = thrown (Exception.other_error (codes "AppConfigValidationError"))
positive limit (some n) =
    if ltb n 1
    then thrown (Exception.other_error (codes "AppConfigValidationError"))
    else returned limit

-- parseBodyLimit
unfoldable pub parse_body_limit : Option Text → Outcome Text
unfolding body_match
parse_body_limit value = positive (or_default value) (body_match (or_default value))

pub record AppConfig : Type 0 where
  pub body_limit : Text
  pub is_swagger_enabled : Bool
  pub port : ℕ

abbrev pub is_set_to : Text → Option Text → Bool
is_set_to expected none = false
is_set_to expected (some value) = value == expected

-- getAppConfig
unfoldable pub get_app_config : (Text → Option ℕ) → Environment → Outcome AppConfig
unfolding parse_port parse_body_limit
get_app_config number env = and_then (parse_port number (env (codes "PORT"))) (λ port.
    and_then (parse_body_limit (env (codes "BODY_LIMIT"))) (λ body_limit. returned (record {
      body_limit = body_limit;
      is_swagger_enabled =
          is_set_to (codes "true") (env (codes "SWAGGER_ENABLED"))
          || not (is_set_to (codes "production") (env (codes "NODE_ENV")));
      port = port;
    })))

pub record AuthConfig : Type 0 where
  pub audience : Text
  pub issuer : Text
  pub secret : Text

abbrev non_empty : Text → Outcome Text
non_empty [] = thrown (Exception.other_error (codes "AuthConfigValidationError"))
non_empty (c ∷ s) = returned (c ∷ s)

-- `required`
unfoldable pub required : Option Text → Outcome Text
unfolding trim
required none = thrown (Exception.other_error (codes "AuthConfigValidationError"))
required (some value) = non_empty (trim value)

-- getAuthConfig
unfoldable pub get_auth_config : Environment → Outcome AuthConfig
unfolding required
get_auth_config env = and_then (required (env (codes "JWT_AUDIENCE"))) (λ audience.
    and_then (required (env (codes "JWT_ISSUER"))) (λ issuer.
      and_then (required (env (codes "JWT_SECRET")))
        (λ secret. returned (record { audience = audience; issuer = issuer; secret = secret }))))

-- getRedisDatabase, of the path of a URL, which begins with a slash where it is not empty.
unfoldable pub get_redis_database : Text → Outcome ℕ
get_redis_database [] = returned 0
get_redis_database (c ∷ []) =
    if eqb c 47 then returned 0 else thrown (Exception.other_error (codes "Error"))
get_redis_database (c ∷ d ∷ s) =
    if is_decimal (d ∷ s)
    then (if is_safe_integer (pos (digits_after 0 (d ∷ s)))
        then returned (digits_after 0 (d ∷ s))
        else thrown (Exception.other_error (codes "Error")))
    else thrown (Exception.other_error (codes "Error"))
