-- ===== src/Auth/Connection.antt =====
-- The connection to Redis that AuthLoginRateLimiter and RedisTokenDenyListClient open at their first
-- call (auth/auth-login-rate-limiter.ts, auth/redis-token-deny-list-client.ts). The two classes have
-- the same code for it.
pub mod Laws
use nest_js_tutorial.Base.{
  ℕ, Bool, true, false, Option, none, some, Text, codes, List, [], ◌∷◌, if◌then◌else◌, trim,
}
use nest_js_tutorial.Runtime.{Exception, Outcome, returned, thrown, M, pure, throw, ◌>>=◌, ◌>>◌}
use nest_js_tutorial.Auth.Limiter.{is_rate_limited, login_keys}

-- The calls of RedisConnection that open and close it.
pub record RedisConnection (S : Type 0) : Type 0 where
  pub connect : M S (Unit {0})
  pub quit : M S (Unit {0})

-- `connectionReady` is set; calls run one after the other, so that a promise that is set has been
-- fulfilled.
pub record Client (S : Type 0) : Type 0 where
  pub connection_ready : Bool
  pub server : S

-- createRedisConnection checks REDIS_URL, and ioredis connects later.
abbrev url_if_any : Text → Text → Outcome Text
url_if_any name [] = thrown (Exception.other_error name)
url_if_any name (c ∷ s) = returned (c ∷ s)

unfoldable pub create_redis_connection : Text → Option Text → Outcome Text
unfolding trim
create_redis_connection name none = thrown (Exception.other_error name)
create_redis_connection name (some url) = url_if_any name (trim url)

abbrev pub on_server : {S A : Type 0} → Client S → Outcome A × S → Outcome A × Client S
on_server c (r, s) = (r, record c { server = s })

abbrev pub opened : {S : Type 0} → Outcome (Unit {0}) × S → Outcome (Unit {0}) × Client S
opened (returned u, s) = (returned u, record { connection_ready = true; server = s })
opened (thrown e, s) = (thrown e, record { connection_ready = false; server = s })

module _ {S : Type 0} (redis : RedisConnection S) where
  -- `connect`
  unfoldable pub connect : M (Client S) (Unit {0})
  connect c = if c.connection_ready then (returned tt, c) else opened (redis.connect c.server)

  -- `get` and `set`, which connect and send their command.
  unfoldable pub call : {A : Type 0} → M S A → M (Client S) A
  unfolding connect
  call command = connect >>= λ u c. on_server c (command c.server)

  -- `consume`, whose command is the script.
  unfoldable pub consume_connected : M S (List ℕ) → M (Client S) (Unit {0})
  unfolding call is_rate_limited
  consume_connected script = do
    attempts ← call script
    if is_rate_limited attempts then throw Exception.auth_login_rate_limit else pure tt

  -- onModuleDestroy
  unfoldable pub on_module_destroy : M (Client S) (Unit {0})
  on_module_destroy c =
      if c.connection_ready then on_server c (redis.quit c.server) else (returned tt, c)
