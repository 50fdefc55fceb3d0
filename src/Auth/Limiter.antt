-- ===== src/Auth/Limiter.antt =====
-- AuthLoginRateLimiter (auth/auth-login-rate-limiter.ts) and its script for Redis
-- (auth/auth-login-rate-limiter.constants.ts). The connection and the hash in the keys are parameters.
pub mod Laws
use nest_js_tutorial.Base.{
  ℕ, suc, ◌+◌, Bool, true, false, Option, none, some, Text, codes, ◌==◌, ltb, leb, eqb, List, [],
  ◌∷◌, ◌++◌, any, if◌then◌else◌,
}
use nest_js_tutorial.Runtime.{Exception, Outcome, returned, thrown, M}

abbrev pub auth_login_max_attempts : ℕ
auth_login_max_attempts = 5

abbrev pub auth_login_window_ms : ℕ
auth_login_window_ms = 60000

-- A counter of Redis: its value, and the time from which on it is gone.
pub record Counter : Type 0 where
  pub value : ℕ
  pub expires_at : ℕ

-- The counters by their keys.
abbrev pub Counters : Type 0
Counters = Text → Option Counter

-- `INCR key`, and `PEXPIRE key` if the key is new.
unfoldable pub increment : ℕ → ℕ → Option Counter → Counter
increment now window none = record { value = 1; expires_at = now + window }
increment now window (some c) =
    if leb c.expires_at now
    then record { value = 1; expires_at = now + window }
    else record { value = suc c.value; expires_at = c.expires_at }

abbrev pub put_counter : Text → Counter → Counters → Counters
put_counter key c counters k = if k == key then some c else counters k

-- AUTH_LOGIN_INCREMENT_SCRIPT, which Redis runs as one step.
unfoldable pub increment_script : ℕ → ℕ → List Text → Counters → List ℕ × Counters
unfolding increment
increment_script now window [] counters = ([], counters)
increment_script now window (key ∷ keys) counters =
    let c = increment now window (counters key) in
    let (counts, after) = increment_script now window keys (put_counter key c counters) in
    (c.value ∷ counts, after)

-- isRateLimited, of what the script returns.
unfoldable pub is_rate_limited : List ℕ → Bool
is_rate_limited attempts = any (λ attempt. ltb auth_login_max_attempts attempt) attempts

abbrev pub or_unknown : Option Text → Text
or_unknown none = codes "unknown"
or_unknown (some address) = address

-- `hash` is the hexadecimal SHA-256, `to_lower_case` that of JavaScript.
module _ (hash to_lower_case : Text → Text) where
  -- createLoginKey
  unfoldable pub create_login_key : Text → Text → Text
  create_login_key kind value = codes "auth:login:" ++ kind ++ codes ":" ++ hash value

  unfoldable pub login_keys : Text → Option Text → List Text
  unfolding create_login_key
  login_keys email ip_address =
      create_login_key (codes "email") (to_lower_case email)
      ∷ create_login_key (codes "ip") (or_unknown ip_address)
      ∷ []

  -- `consume`, over a connection that does not fail.
  unfoldable pub consume : ℕ → Text → Option Text → M Counters (Unit {0})
  unfolding login_keys increment_script is_rate_limited
  consume now email ip_address counters =
      let (attempts, after) =
        increment_script now auth_login_window_ms (login_keys email ip_address) counters in
      (
        (if is_rate_limited attempts then thrown Exception.auth_login_rate_limit else returned tt),
        after,
      )
