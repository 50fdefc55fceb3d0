-- ===== src/Tests/Connections.antt =====
-- The connections to Redis, and the options of the queue.
use nest_js_tutorial.Base.{
  ◌≡◌, refl, Bool, true, false, Text, codes, Option, none, some, [], ◌∷◌, ◌==◌, if◌then◌else◌,
}
use nest_js_tutorial.Runtime.{Value, str, Exception, returned, thrown, M}
use nest_js_tutorial.Auth.Connection.{RedisConnection, Client, call, connect, consume_connected}
use nest_js_tutorial.Auth.Connection.Laws.{IsReady, IsCalled, call_lem}
use nest_js_tutorial.Auth.DenyList.Service.{TokenDenyListClient, is_token_denied}
use nest_js_tutorial.Auth.DenyList.Service.Laws.{IsRefused, guard_fails_closed}
use nest_js_tutorial.Auth.Guard.{can_activate}
use nest_js_tutorial.Config.Values.{get_redis_database}
use nest_js_tutorial.Jobs.WelcomeMailQueue.{RedisUrl, get_redis_url, queue_name, queue_options}

-- A server that can be reached, and is then open.
abbrev redis : RedisConnection Bool
redis = record { connect = λ b. (returned tt, true); quit = λ b. (returned tt, false) }

abbrev IsOpen : Bool → Type 0
IsOpen b = b ≡ true

abbrev client : Client Bool
client = record { connection_ready = false; server = false }

-- A command that answers whether the connection is open.
abbrev ask : M Bool Bool
ask b = (returned b, b)

call_example :
    IsCalled redis IsOpen ask client (call redis ask client)
    × IsReady redis IsOpen (call redis ask client).1
call_example = call_lem redis IsOpen ask client (λ h. h) (λ s t u h. cc) (λ s h. h)

consume_test :
    (consume_connected redis (λ b. (returned (6 ∷ 1 ∷ []), b)) client).0
    ≡ thrown Exception.auth_login_rate_limit
unfolding consume_connected call connect
consume_test = refl

abbrev redis_url : RedisUrl
redis_url = record {
  protocol = codes "rediss:";
  hostname = codes "cache";
  username = codes "app";
  password = codes "secret";
  port = [];
  pathname = codes "/2";
}

abbrev parse : Text → Option RedisUrl
parse s = if s == codes "url" then some redis_url else none

options_test :
    queue_options parse (λ s. returned s) (some (codes " url ")) none
    ≡ returned (record {
      queue_name = codes "welcome-mail";
      db = 2;
      host = codes "cache";
      password = codes "secret";
      port = 6379;
      is_tls = true;
      username = codes "app";
    })
unfolding queue_options get_redis_url queue_name get_redis_database ◌==◌
options_test = refl

-- A client that cannot be reached.
abbrev unreachable_client : TokenDenyListClient (Unit {0})
unreachable_client = record {
  get = λ key s. (thrown (Exception.other_error (codes "refused")), s);
  set = λ key value ttl_seconds s. (thrown (Exception.other_error (codes "refused")), s);
}

abbrev verify : Text → M (Unit {0}) Value
verify token s = (returned (str token), s)

fails_closed_example :
    IsRefused verify unreachable_client
      (λ key s. (Exception.other_error (codes "refused"), refl))
      (can_activate verify (is_token_denied unreachable_client) (some (codes "Token abc")) tt).0
fails_closed_example =
    guard_fails_closed verify unreachable_client
      (λ key s. (Exception.other_error (codes "refused"), refl)) (some (codes "Token abc")) tt
