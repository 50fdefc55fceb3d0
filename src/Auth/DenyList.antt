-- ===== src/Auth/DenyList.antt =====
-- The deny list of tokens (auth/token-deny-list.service.ts) as Redis keeps it, where it answers.
-- Service has the calls of a client that may fail.
pub mod Service
use nest_js_tutorial.Base.{
  ℕ, ◌+◌, ◌-◌, ◌*◌, ◌/◌, ◌≤◌, ◌<◌, ◌≡◌, Bool, true, false, Option, none, some, Text, codes, ◌==◌,
  ==_refl, ltb, eqb, ◌++◌, if◌then◌else◌, arith,
}

-- The keys, each with the time in milliseconds from which on it is gone.
abbrev pub Keys : Type 0
Keys = Text → Option ℕ

-- `key`
unfoldable pub deny_list_key : Text → Text
deny_list_key token_id = codes "auth:deny-list:" ++ token_id

-- `SET key '1' EX ttlSeconds`
abbrev pub set_key : ℕ → Text → ℕ → Keys → Keys
set_key now key ttl_seconds keys k = if k == key then some (now + ttl_seconds * 1000) else keys k

-- deny, of a token that expires at the second `exp`. Subtraction of natural numbers stops at 0, where
-- the code returns, too.
unfoldable pub deny : ℕ → ℕ → Text → Keys → Keys
deny now exp jti keys =
    let ttl_seconds = exp - now / 1000 in
    if eqb ttl_seconds 0 then keys else set_key now (deny_list_key jti) ttl_seconds keys

-- What `get` answers: a key that has expired is gone.
abbrev pub is_present : ℕ → Option ℕ → Bool
is_present now none = false
is_present now (some expires_at) = ltb now expires_at

-- isDenied
unfoldable pub is_denied : ℕ → Text → Keys → Bool
unfolding deny_list_key
is_denied now jti keys = is_present now (keys (deny_list_key jti))

-- The time of a denial, in milliseconds, reaches the end of the token.
reaches : (now exp t : ℕ) → t < exp * 1000 → now ≤ t → t < now + (exp - now / 1000) * 1000
reaches now exp t h k = omega arith

-- A token that has been denied is denied at every later time before it expires.
pub deny_lem :
    (now exp t : ℕ) (jti : Text) (keys : Keys)
    → now ≤ t
    → t < exp * 1000
    → is_denied t jti (deny now exp jti keys) ≡ true
unfolding deny is_denied
deny_lem now exp t jti keys h k = ground (arith, reaches now exp t k h, ==_refl (deny_list_key jti))
