-- ===== src/Jobs/WelcomeMailQueue.antt =====
-- BullMqWelcomeMailQueue (jobs/welcome-mail-queue.ts). The parser of URLs, decodeURIComponent, and
-- BullMQ with its connection are parameters.
use nest_js_tutorial.Base.{
  ℕ, Bool, true, false, not, ◌||◌, Option, none, some, Text, codes, ◌==◌, [], ◌∷◌, if◌then◌else◌,
  trim, digits_after,
}
use nest_js_tutorial.Runtime.{Exception, Outcome, returned, thrown, M, ◌>>◌}
use nest_js_tutorial.Config.Values.{and_then, get_redis_database}
use nest_js_tutorial.Jobs.Outbox.{ClaimedWelcomeMailOutbox}

-- The parts of REDIS_URL that the code reads.
pub record RedisUrl : Type 0 where
  pub protocol : Text
  pub hostname : Text
  pub username : Text
  pub password : Text
  pub port : Text
  pub pathname : Text

-- The options of the connection, and the name of the queue.
pub record QueueOptions : Type 0 where
  pub queue_name : Text
  pub db : ℕ
  pub host : Text
  pub password : Text
  pub port : ℕ
  pub is_tls : Bool
  pub username : Text

abbrev pub is_empty : Text → Bool
is_empty [] = true
is_empty (c ∷ s) = false

abbrev redis_config_error : Exception
redis_config_error = Exception.other_error (codes "RedisConfigValidationError")

abbrev checked : Option RedisUrl → Outcome RedisUrl
checked none = thrown redis_config_error
checked (some url) =
    if not (url.protocol == codes "redis:" || url.protocol == codes "rediss:")
      || (is_empty url.hostname || (is_empty url.username || is_empty url.password))
    then thrown redis_config_error
    else returned url

abbrev parsed : (Text → Option RedisUrl) → Text → Outcome RedisUrl
parsed parse [] = thrown redis_config_error
parsed parse (c ∷ s) = checked (parse (c ∷ s))

-- getRedisUrl
unfoldable pub get_redis_url : (Text → Option RedisUrl) → Option Text → Outcome RedisUrl
unfolding trim
get_redis_url parse none = thrown redis_config_error
get_redis_url parse (some value) = parsed parse (trim value)

abbrev name_or_default : Text → Text
name_or_default [] = codes "welcome-mail"
name_or_default (c ∷ s) = c ∷ s

-- `environment.WELCOME_MAIL_QUEUE_NAME?.trim() || DEFAULT_WELCOME_MAIL_QUEUE_NAME`
unfoldable pub queue_name : Option Text → Text
unfolding trim
queue_name none = codes "welcome-mail"
queue_name (some name) = name_or_default (trim name)

-- `Number(redisUrl.port || 6379)`, of the digits of a port.
abbrev port_or_default : Text → ℕ
port_or_default [] = 6379
port_or_default (c ∷ s) = digits_after 0 (c ∷ s)

-- The constructor, of REDIS_URL and WELCOME_MAIL_QUEUE_NAME.
unfoldable pub queue_options :
    (Text → Option RedisUrl)
    → (Text → Outcome Text)
    → Option Text
    → Option Text
    → Outcome QueueOptions
unfolding get_redis_url queue_name
queue_options parse decode redis_url name = and_then (get_redis_url parse redis_url) (λ url.
    and_then (get_redis_database (RedisUrl.pathname url)) (λ db.
      and_then (decode (RedisUrl.password url)) (λ password.
        and_then (decode (RedisUrl.username url)) (λ username. returned (record {
          queue_name = queue_name name;
          db = db;
          host = RedisUrl.hostname url;
          password = password;
          port = port_or_default (RedisUrl.port url);
          is_tls = RedisUrl.protocol url == codes "rediss:";
          username = username;
        })))))

-- The calls of BullMQ and of the connection. The id of a job is the one of its outbox row.
pub record JobServer (S : Type 0) : Type 0 where
  pub add_job : Text → ClaimedWelcomeMailOutbox → M S (Unit {0})
  pub close_jobs : M S (Unit {0})
  pub quit : M S (Unit {0})

pub record MailQueue (S : Type 0) : Type 0 where
  pub has_added_job : Bool
  pub server : S

abbrev pub on_jobs : {S : Type 0} → Bool → Outcome (Unit {0}) × S → Outcome (Unit {0}) × MailQueue S
on_jobs b (r, s) = (r, record { has_added_job = b; server = s })

module _ {S : Type 0} (jobs : JobServer S) where
  -- `add`
  unfoldable pub add : ClaimedWelcomeMailOutbox → M (MailQueue S) (Unit {0})
  add job q = on_jobs true (jobs.add_job job.id job q.server)

  -- `close`
  unfoldable pub close : M (MailQueue S) (Unit {0})
  close q =
      if q.has_added_job
      then on_jobs true ((jobs.close_jobs >> jobs.quit) q.server)
      else (returned tt, q)
