-- ===== src/Tests/Config.antt =====
-- The configuration.
use nest_js_tutorial.Base.{
  ℕ, ◌≡◌, ◌≢◌, ◌⊎◌, refl, true, Text, codes, Option, none, some, [], ◌==◌, decimal, suc,
  if◌then◌else◌,
}
use nest_js_tutorial.Runtime.{Exception, returned, thrown}
use nest_js_tutorial.Files.Storage.{starts_with}
use nest_js_tutorial.Config.Values.{
  Environment, body_match, body_size, parse_port, parse_body_limit, AppConfig, get_app_config,
  get_redis_database,
}
use nest_js_tutorial.Config.Database.{
  Url, Urls, parts, get_all, is_ambiguous, has_ambiguous_target_overrides, without_last,
  normalize_port, normalize_database_host, connection_hosts, connection_ports, same_database_target,
  postgres_url, get_test_database_config,
}
use nest_js_tutorial.Config.Database.Laws.{test_database_separate}
use nest_js_tutorial.Config.Reset.{
  ResetEnvironment, DataSource, run_database_reset_runner, get_reset_environment, is_set,
}
use nest_js_tutorial.Config.Reset.Laws.{IsDestroyedLast, run_database_reset_lem}

abbrev numbers : Text → Option ℕ
numbers text = if text == codes "8080" then some 8080 else none

abbrev environment : Environment
environment key = if key == codes "PORT" then some (codes "8080") else none

abbrev config : AppConfig
config = record { body_limit = codes "100kb"; is_swagger_enabled = true; port = 8080 }

config_test : get_app_config numbers environment ≡ returned config
unfolding get_app_config parse_body_limit body_match body_size parse_port ◌==◌
config_test = refl

redis_database_test : get_redis_database (codes "/12") ≡ returned 12
unfolding get_redis_database
redis_database_test = refl

abbrev url_of : Text → Text → Url
url_of host path = record {
  protocol = codes "postgres:";
  hostname = host;
  port = [];
  pathname = path;
  search_params = [];
}

abbrev test_url : Text
test_url = codes "postgres://localhost/test"

abbrev application_url : Text
application_url = codes "postgres://127.0.0.1/app"

abbrev urls : Urls
urls = record {
  parse = λ s.
      if s == test_url
      then some (url_of (codes "localhost") (codes "/test"))
      else if s == application_url
      then some (url_of (codes "127.0.0.1") (codes "/app"))
      else none;
  decode = λ s. returned s;
  to_lower_case = λ s. s;
}

separate_example : codes "/test" ≢ codes "/app"
unfolding get_test_database_config postgres_url has_ambiguous_target_overrides is_ambiguous get_all
    parts same_database_target connection_hosts connection_ports normalize_port
    normalize_database_host without_last starts_with ◌==◌ decimal
separate_example =
    test_database_separate urls test_url application_url test_url
      (url_of (codes "localhost") (codes "/test")) (url_of (codes "127.0.0.1") (codes "/app"))
      (codes "localhost") (codes "127.0.0.1") (codes "5432") (codes "/test") (codes "/app") refl
      refl refl (λ h. cc) refl refl refl refl refl refl refl

-- Without a confirmation.
abbrev unconfirmed : ResetEnvironment
unconfirmed = record {
  confirm = none;
  test_database_url = some test_url;
  database_url = some application_url;
}

-- A data source that counts the calls; its migrations fail.
abbrev source : DataSource ℕ
source = record {
  initialize = λ n. (returned tt, suc n);
  drop_database = λ n. (returned tt, suc n);
  run_migrations = λ n. (thrown (Exception.other_error (codes "Error")), suc n);
  destroy = λ n. (returned tt, suc n);
}

abbrev confirmed : ResetEnvironment
confirmed = record unconfirmed { confirm = some (codes "yes") }

-- A file .env that confirms and names the databases, which does not count as the caller's word.
abbrev load_env_file : ResetEnvironment → ResetEnvironment
load_env_file env = record confirmed { confirm = some (codes "yes") }

reset_example :
    ((run_database_reset_runner urls load_env_file confirmed (λ url. source) 0).1 ≡ 0)
    ⊎ ((url : Text) × (confirmed.confirm ≡ some (codes "yes"))
        × (get_test_database_config urls
              (get_reset_environment load_env_file confirmed).test_database_url
              (get_reset_environment load_env_file confirmed).database_url
            ≡ returned url)
        × (is_set confirmed.test_database_url ≡ true
            → get_reset_environment load_env_file confirmed ≡ confirmed)
        × IsDestroyedLast source 0
            (run_database_reset_runner urls load_env_file confirmed (λ url. source) 0))
reset_example = run_database_reset_lem (λ url. source) urls load_env_file confirmed 0

reset_test : (run_database_reset_runner urls load_env_file confirmed (λ url. source) 0).1 ≡ 4
unfolding run_database_reset_runner get_test_database_config postgres_url
    has_ambiguous_target_overrides is_ambiguous get_all parts same_database_target connection_hosts
    connection_ports normalize_port normalize_database_host without_last starts_with ◌==◌ decimal
reset_test = refl

-- Without the caller's word the file .env confirms nothing.
reset_unconfirmed_test :
    (run_database_reset_runner urls load_env_file
      (record unconfirmed { test_database_url = none })
      (λ url. source)
      0).1
    ≡ 0
unfolding run_database_reset_runner
reset_unconfirmed_test = refl
