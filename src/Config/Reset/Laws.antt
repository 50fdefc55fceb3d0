-- ===== src/Config/Reset/Laws.antt =====
-- When a reset touches a database, and how it ends.
use nest_js_tutorial.Base.{
  ◌≡◌, ◌⊎◌, inl, inr, refl, sym, ap, ◌∙◌, true, Option, none, some, Text, codes, ==_iff, Bool-cases,
  if◌then◌else◌,
}
use nest_js_tutorial.Runtime.{Exception, Outcome, returned, thrown, ◌>>◌, after}
use nest_js_tutorial.Config.Database.{Urls, get_test_database_config}
use nest_js_tutorial.Config.Reset.{
  ResetEnvironment, is_yes, get_database_reset_config, DataSource, after_initialize, reset,
  reset_if, run_database_reset, run_database_reset_runner, get_reset_environment, is_set,
}

is_yes-some : (o : Option Text) → is_yes o ≡ true → o ≡ some (codes "yes")
is_yes-some none h = cc
is_yes-some (some value) h = ap some ((==_iff value (codes "yes")).0 h)

config-returned :
    (urls : Urls) (env : ResetEnvironment) (url : Text)
    → get_database_reset_config urls env ≡ returned url
    → (env.confirm ≡ some (codes "yes"))
      × (get_test_database_config urls env.test_database_url env.database_url ≡ returned url)
unfolding get_database_reset_config
config-returned urls env url h = elim (Bool-cases (is_yes env.confirm)) [
  | inl yes_it_is ↦ (
    is_yes-some env.confirm yes_it_is,
    sym (
          ap
            (λ b.
              if b
              then get_test_database_config urls env.test_database_url env.database_url
              else thrown (Exception.other_error (codes "DatabaseResetConfigValidationError")))
            yes_it_is)
        ∙ h,
  )
  | inr refused ↦
      let bad =
        sym (
          ap
            (λ b.
              if b
              then get_test_database_config urls env.test_database_url env.database_url
              else thrown (Exception.other_error (codes "DatabaseResetConfigValidationError")))
            refused)
        ∙ h in
      cc
]

module _ {S : Type 0} (source : DataSource S) where
  -- How a reset of an accepted target ends, once the source is initialized: `destroy` has been called
  -- last, whatever the two steps before it did.
  abbrev pub IsDestroyedLast : S → Outcome (Unit {0}) × S → Type 0
  IsDestroyedLast s o =
      ((e : Exception) × (source.initialize s ≡ (thrown e, o.1)) × (o.0 ≡ thrown e))
      ⊎ ((t u : S) × (source.initialize s ≡ (returned tt, t)) × ((source.destroy u).1 ≡ o.1))

  destroyed :
      (s : S) (i : Outcome (Unit {0}) × S)
      → source.initialize s ≡ i
      → IsDestroyedLast s (after_initialize source i)
  destroyed s (thrown e, t) h = inl (e, h, refl)
  destroyed s (returned u, t) h =
      let done = (source.drop_database >> source.run_migrations) t in
      inr (t, done.1, h, last_lem (source.destroy done.1) done.0)
    where
      last_lem :
          (o : Outcome (Unit {0}) × S) (r : Outcome (Unit {0}))
          → o.1 ≡ (after o (λ u s'. (r, s'))).1
      last_lem (returned u, s') r = refl
      last_lem (thrown e, s') r = refl

refused_or_run :
    {S : Type 0} (data_source : Text → DataSource S) (urls : Urls) (env : ResetEnvironment) (s : S)
    (o : Outcome Text)
    → get_database_reset_config urls env ≡ o
    → ((reset_if data_source o s).1 ≡ s)
      ⊎ ((url : Text) × (env.confirm ≡ some (codes "yes"))
          × (get_test_database_config urls env.test_database_url env.database_url ≡ returned url)
          × IsDestroyedLast (data_source url) s (reset_if data_source o s))
unfolding reset
refused_or_run data_source urls env s (thrown e) h = inl refl
refused_or_run data_source urls env s (returned url) h =
    let (confirmed, target) = config-returned urls env url h in
    inr
      (url, confirmed, target, destroyed (data_source url) s ((data_source url).initialize s) refl)

-- The runner of the reset touches no database unless the caller's CONFIRM_DATABASE_RESET is `yes`,
-- whatever the file .env says, and the configuration of the test database is accepted, which the file
-- may complete if TEST_DATABASE_URL is not set; and then the data source of the accepted URL is the one
-- it works on, and whatever this source does, it is destroyed last, if it could be initialized.
pub run_database_reset_lem :
    {S : Type 0} (data_source : Text → DataSource S) (urls : Urls)
    (load_env_file : ResetEnvironment → ResetEnvironment) (caller : ResetEnvironment) (s : S)
    → let run = run_database_reset_runner urls load_env_file caller data_source s in
      let env = get_reset_environment load_env_file caller in
      (run.1 ≡ s)
      ⊎ ((url : Text) × (caller.confirm ≡ some (codes "yes"))
          × (get_test_database_config urls env.test_database_url env.database_url ≡ returned url)
          × (is_set caller.test_database_url ≡ true → env ≡ caller)
          × IsDestroyedLast (data_source url) s run)
unfolding run_database_reset_runner run_database_reset get_reset_environment
run_database_reset_lem data_source urls load_env_file caller s =
    elim (refused_or_run data_source urls env s (get_database_reset_config urls env) refl) [
      | inl left ↦ inl left
      | inr (url, confirmed, target, last) ↦ inr (url, confirmed, target, λ set. rw set refl, last)
    ]
  where
    env : ResetEnvironment
    env = get_reset_environment load_env_file caller
