-- ===== src/Config/Database.antt =====
-- config/database-config.ts. `new URL`, `decodeURIComponent` and `toLowerCase` are parameters.
pub mod Hosts
pub mod Laws
use nest_js_tutorial.Base.{
  ℕ, zero, suc, Bool, true, false, not, ◌&&◌, ◌||◌, Option, none, some, Text, codes, ◌==◌, ltb, eqb,
  List, [], ◌∷◌, ◌++◌, map, any, length, select, if◌then◌else◌, trim, trim_left, ℤ, pos, negsuc,
  is_digit, is_decimal, digits_after, decimal,
}
use nest_js_tutorial.Runtime.{Exception, Outcome, returned, thrown}
use nest_js_tutorial.Articles.Tags.{contains}
use nest_js_tutorial.Files.Storage.{starts_with}

-- The parts of a URL that the code reads.
pub record Url : Type 0 where
  pub protocol : Text
  pub hostname : Text
  pub port : Text
  pub pathname : Text
  pub search_params : List (Text × Text)

pub record Urls : Type 0 where
  pub parse : Text → Option Url
  pub decode : Text → Outcome Text
  pub to_lower_case : Text → Text

-- `value.split(',')`: the first part and the others.
unfoldable pub parts : Text → Text × List Text
parts [] = ([], [])
parts (c ∷ s) =
    let (part, more) = parts s in if eqb c 44 then ([], part ∷ more) else (c ∷ part, more)

abbrev pub split_commas : Text → List Text
split_commas s = (parts s).0 ∷ (parts s).1

-- `searchParams.getAll(name)` and `searchParams.get(name)`
unfoldable pub get_all : Text → List (Text × Text) → List Text
get_all name [] = []
get_all name ((key, value) ∷ params) =
    let rest = get_all name params in if key == name then value ∷ rest else rest

abbrev pub first_or : Text → List Text → Text
first_or fallback [] = fallback
first_or fallback (value ∷ values) = value

-- The tests of hasAmbiguousTargetOverrides.
abbrev is_bad_port : Text → Bool
is_bad_port part =
    not (is_decimal part) || (ltb (digits_after 0 part) 1 || ltb 65535 (digits_after 0 part))

abbrev is_bad_part : Bool → Text → Bool
is_bad_part is_port part = trim part == [] || (is_port && is_bad_port part)

unfoldable pub is_ambiguous : Text → Bool → Url → Bool
unfolding get_all parts
is_ambiguous name is_port url =
    let values = get_all name url.search_params in
    ltb 1 (length values) || any (λ value. any (is_bad_part is_port) (split_commas value)) values

unfoldable pub has_ambiguous_target_overrides : Url → Bool
unfolding is_ambiguous
has_ambiguous_target_overrides url =
    is_ambiguous (codes "host") false url || is_ambiguous (codes "port") true url

-- `Number.parseInt(text, 10)`, `none` for NaN, and `String` of it.
abbrev digit_prefix : ℕ → Text → ℕ
digit_prefix n [] = n
digit_prefix n (c ∷ s) =
    let more = digit_prefix (digits_after n (c ∷ [])) s in if is_digit c then more else n

abbrev starts_with_digit : Text → Bool
starts_with_digit [] = false
starts_with_digit (c ∷ s) = is_digit c

abbrev natural : Text → Option ℕ
natural s = if starts_with_digit s then some (digit_prefix 0 s) else none

abbrev negated : Option ℕ → Option ℤ
negated none = none
negated (some zero) = some (pos 0)
negated (some (suc n)) = some (negsuc n)

abbrev positive : Option ℕ → Option ℤ
positive none = none
positive (some n) = some (pos n)

abbrev signed : Text → Option ℤ
signed [] = none
signed (c ∷ s) =
    if eqb c 45 then negated (natural s) else positive (natural (if eqb c 43 then s else c ∷ s))

abbrev number_text : Option ℤ → Text
number_text none = codes "NaN"
number_text (some (pos n)) = decimal n
number_text (some (negsuc n)) = codes "-" ++ decimal (suc n)

unfoldable pub normalize_port : Text → Text
unfolding trim_left
normalize_port port = number_text (signed (trim_left port))

abbrev pub or_else : Text → Text → Text
or_else [] fallback = fallback
or_else (c ∷ s) fallback = c ∷ s

-- connectionPorts
unfoldable pub connection_ports : Url → List Text
unfolding normalize_port parts get_all
connection_ports url = map normalize_port (
    split_commas
      (first_or (or_else url.port (codes "5432")) (get_all (codes "port") url.search_params)))

-- `.replace(/^\[|\]$/g, '').replace(/\.$/, '')`
abbrev pub without_first : ℕ → Text → Text
without_first c [] = []
without_first c (d ∷ s) = if eqb d c then s else d ∷ s

unfoldable pub without_last : ℕ → Text → Text
without_last c [] = []
without_last c (d ∷ []) = if eqb d c then [] else d ∷ []
without_last c (d ∷ e ∷ s) = d ∷ without_last c (e ∷ s)

-- `first.some((value) => second.includes(value))`
abbrev pub meets : List Text → List Text → Bool
meets first second = any (λ value. contains second value) first

abbrev pub same_text : Outcome Text → Outcome Text → Outcome Bool
same_text (thrown e) second = thrown e
same_text (returned s) (thrown e) = thrown e
same_text (returned s) (returned t) = returned (s == t)

abbrev pub is_longer : ℕ → Text → Bool
is_longer n s = ltb n (length s)

-- isPostgresUrl, with the URL if it is one.
abbrev postgres : Option Url → Option Url
postgres none = none
postgres (some url) =
    if (url.protocol == codes "postgres:" || url.protocol == codes "postgresql:")
      && (is_longer 0 url.hostname && is_longer 1 url.pathname)
    then some url
    else none

abbrev pub invalid : {A : Type 0} → Outcome A
invalid = thrown (Exception.other_error (codes "DatabaseConfigValidationError"))

abbrev pub checked : Text → Option Url → Outcome Text
checked url none = invalid
checked url (some parsed) = returned url

-- What getTestDatabaseConfig makes of the last comparison.
abbrev pub separate : Text → Outcome Bool → Outcome Text
separate url (thrown e) = thrown e
separate url (returned true) = invalid
separate url (returned false) = returned url

module _ (urls : Urls) where
  -- normalizeDatabaseHost
  unfoldable pub normalize_database_host : Text → Text
  unfolding without_last starts_with
  normalize_database_host hostname =
      let lower = urls.to_lower_case hostname in
      let host = without_last 46 (without_last 93 (without_first 91 lower)) in
      if host == codes "localhost" || (host == codes "::1" || starts_with (codes "127.") host)
      then codes "loopback"
      else host

  -- connectionHosts
  unfoldable pub connection_hosts : Url → List Text
  unfolding normalize_database_host parts get_all
  connection_hosts url =
      map normalize_database_host
        (split_commas (first_or url.hostname (get_all (codes "host") url.search_params)))

  -- sameDatabaseTarget; the paths are decoded only where the rest agrees.
  unfoldable pub same_database_target : Url → Url → Outcome Bool
  unfolding connection_hosts connection_ports
  same_database_target first second =
      if meets (connection_hosts first) (connection_hosts second)
        && meets (connection_ports first) (connection_ports second)
      then same_text (urls.decode first.pathname) (urls.decode second.pathname)
      else returned false

  unfoldable pub postgres_url : Text → Option Url
  postgres_url text = postgres (urls.parse text)

  -- getDatabaseConfig, of the variable DATABASE_URL.
  unfoldable pub get_database_config : Option Text → Outcome Text
  unfolding postgres_url
  get_database_config none = invalid
  get_database_config (some []) = invalid
  get_database_config (some (c ∷ s)) = checked (c ∷ s) (postgres_url (c ∷ s))

  abbrev pub compared : Text → Url → Option Url → Outcome Text
  compared url test none = invalid
  compared url test (some application) =
      if has_ambiguous_target_overrides application
      then invalid
      else separate url (same_database_target test application)

  -- The tests that follow getDatabaseConfig, where there is an application URL and where there is none.
  abbrev pub apart : Text → Url → Option Text → Outcome Text
  apart url test none = returned url
  apart url test (some []) = returned url
  apart url test (some (c ∷ s)) = compared url test (postgres_url (c ∷ s))

  abbrev pub test_target : Text → Option Url → Option Text → Outcome Text
  test_target url none application = invalid
  test_target url (some test) application =
      if has_ambiguous_target_overrides test then invalid else apart url test application

  -- getTestDatabaseConfig, of TEST_DATABASE_URL and DATABASE_URL.
  unfoldable pub get_test_database_config : Option Text → Option Text → Outcome Text
  unfolding postgres_url has_ambiguous_target_overrides same_database_target
  get_test_database_config none application = invalid
  get_test_database_config (some []) application = invalid
  get_test_database_config (some (c ∷ s)) application =
      test_target (c ∷ s) (postgres_url (c ∷ s)) application
