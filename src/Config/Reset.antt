-- ===== src/Config/Reset.antt =====
-- The reset of the test database (database/database-reset-config.ts, database/reset-database.ts,
-- database/reset-database-runner.ts). The data source (TypeORM) is a parameter.
pub mod Laws
use nest_js_tutorial.Base.{
  Bool, true, false, Option, none, some, Text, [], ◌∷◌, codes, ◌==◌, if◌then◌else◌,
}
use nest_js_tutorial.Runtime.{
  Exception, Outcome, returned, thrown, M, pure, throw, ◌>>=◌, ◌>>◌, after,
}
use nest_js_tutorial.Config.Database.{Urls, get_test_database_config}

-- The variables of the environment that the reset reads.
pub record ResetEnvironment : Type 0 where
  pub confirm : Option Text
  pub test_database_url : Option Text
  pub database_url : Option Text

abbrev pub is_yes : Option Text → Bool
is_yes none = false
is_yes (some value) = value == codes "yes"

-- A variable that is there and not empty.
abbrev pub is_set : Option Text → Bool
is_set none = false
is_set (some []) = false
is_set (some (c ∷ cs)) = true

-- getDatabaseResetConfig
unfoldable pub get_database_reset_config : Urls → ResetEnvironment → Outcome Text
unfolding get_test_database_config
get_database_reset_config urls env =
    if is_yes env.confirm
    then get_test_database_config urls env.test_database_url env.database_url
    else thrown (Exception.other_error (codes "DatabaseResetConfigValidationError"))

-- ResettableDataSource
pub record DataSource (S : Type 0) : Type 0 where
  pub initialize : M S (Unit {0})
  pub drop_database : M S (Unit {0})
  pub run_migrations : M S (Unit {0})
  pub destroy : M S (Unit {0})

-- A `finally` block after a `try` block: its own error takes the place of the first one.
abbrev pub finally : {S A : Type 0} → Outcome A × S → M S (Unit {0}) → Outcome A × S
finally (r, s) m = after (m s) (λ u s'. (r, s'))

abbrev pub after_initialize :
    {S : Type 0} → DataSource S → Outcome (Unit {0}) × S → Outcome (Unit {0}) × S
after_initialize source (thrown e, s) = (thrown e, s)
after_initialize source (returned u, s) =
    finally ((source.drop_database >> source.run_migrations) s) source.destroy

-- The part of runDatabaseReset after its validation.
unfoldable pub reset : {S : Type 0} → DataSource S → M S (Unit {0})
reset source s = after_initialize source (source.initialize s)

-- The data source reads its connection from DATABASE_URL, which the runner sets to the accepted URL.
abbrev pub reset_if : {S : Type 0} → (Text → DataSource S) → Outcome Text → M S (Unit {0})
reset_if data_source (thrown e) = throw e
reset_if data_source (returned url) = reset (data_source url)

-- runDatabaseReset with the validation of the runner.
unfoldable pub run_database_reset :
    {S : Type 0} → Urls → ResetEnvironment → (Text → DataSource S) → M S (Unit {0})
unfolding get_database_reset_config reset
run_database_reset urls env data_source = reset_if data_source (get_database_reset_config urls env)

-- getResetEnvironment: `process.loadEnvFile('.env')` is a parameter. It is called if the variable is
-- not there or empty, and whatever it does, the confirmation is the caller's.
unfoldable pub get_reset_environment :
    (ResetEnvironment → ResetEnvironment) → ResetEnvironment → ResetEnvironment
get_reset_environment load_env_file env =
    let loaded = if is_set env.test_database_url then env else load_env_file env in
    record loaded { confirm = env.confirm }

-- runDatabaseResetRunner
unfoldable pub run_database_reset_runner :
    {S : Type 0}
    → Urls
    → (ResetEnvironment → ResetEnvironment)
    → ResetEnvironment
    → (Text → DataSource S)
    → M S (Unit {0})
unfolding get_reset_environment run_database_reset
run_database_reset_runner urls load_env_file env data_source =
    run_database_reset urls (get_reset_environment load_env_file env) data_source
