-- ===== src/Config/Values/Laws.antt =====
-- The configuration of the environment: the numbers that are accepted.
use nest_js_tutorial.Base.{
  ℕ, ◌≡◌, ◌≤◌, refl, sym, ap, ◌∙◌, Bool, true, ◌||◌, Option, none, some, Bool-cases, inl, inr,
  subst, Text, codes, ltb, [], ◌∷◌, arith, is_decimal, digits_after, decimal, decimal-value,
  decimal-digits, leb, if◌then◌else◌,
}
use nest_js_tutorial.Runtime.{Exception, Outcome, returned, thrown}
use nest_js_tutorial.Config.Values.{
  Environment, and_then, in_range, parse_port, or_default, positive, body_match, parse_body_limit,
  AppConfig, get_app_config, get_redis_database,
}

decimal_database :
    (n : ℕ) (s : Text)
    → is_decimal s ≡ true
    → digits_after 0 s ≡ n
    → n ≤ 9007199254740991
    → get_redis_database (47 ∷ s) ≡ returned n
unfolding get_redis_database
decimal_database n [] h k l = cc
decimal_database n (d ∷ s) h k l =
    let safe : leb n 9007199254740991 ≡ true = ground arith in rw (h, k, safe) refl

-- The number of a Redis database that the path of a URL spells in decimal is read back, up to the
-- largest safe integer.
pub get_redis_database-decimal :
    (n : ℕ) → n ≤ 9007199254740991 → get_redis_database (47 ∷ decimal n) ≡ returned n
get_redis_database-decimal n h =
    decimal_database n (decimal n) (decimal-digits n) (decimal-value n) h

in_range-returned :
    (number : Text → Option ℕ) (o : Option ℕ) (port : ℕ)
    → in_range number o ≡ returned port
    → (1 ≤ port) × (port ≤ 65535)
in_range-returned number none port h = cc
in_range-returned number (some n) port h = elim (Bool-cases (ltb n 1 || ltb 65535 n)) [
  | inl outside ↦ let bad = sym (ap check outside) ∙ h in cc
  | inr inside ↦
      let ends = sym (ap check inside) ∙ h in
      let same : n ≡ port = cc in
      subst (λ p. (1 ≤ p) × (p ≤ 65535)) same (ground arith, ground arith)
]
  where
    check : Bool → Outcome ℕ
    check b =
        if b then thrown (Exception.other_error (codes "AppConfigValidationError")) else returned n

parse_port-returned :
    (number : Text → Option ℕ) (value : Option Text) (port : ℕ)
    → parse_port number value ≡ returned port
    → (1 ≤ port) × (port ≤ 65535)
unfolding parse_port
parse_port-returned number none port h =
    let same : 3000 ≡ port = cc in
    subst (λ p. (1 ≤ p) × (p ≤ 65535)) same (omega arith, omega arith)
parse_port-returned number (some value) port h = in_range-returned number (number value) port h

-- A body limit of at least one unit.
abbrev pub IsBodyLimit : Text → Type 0
IsBodyLimit limit = (n : ℕ) × (body_match limit ≡ some n) × (1 ≤ n)

positive-returned :
    (limit r : Text) (o : Option ℕ)
    → body_match limit ≡ o
    → positive limit o ≡ returned r
    → (r ≡ limit) × IsBodyLimit limit
positive-returned limit r none k h = cc
positive-returned limit r (some n) k h = elim (Bool-cases (ltb n 1)) [
  | inl small ↦ let bad = sym (ap check small) ∙ h in cc
  | inr large ↦ let ends = sym (ap check large) ∙ h in (cc, (n, k, ground arith))
]
  where
    check : Bool → Outcome Text
    check b =
        if b
        then thrown (Exception.other_error (codes "AppConfigValidationError"))
        else returned limit

config-returned :
    (port : Outcome ℕ) (limit : Outcome Text) (f : ℕ → Text → AppConfig) (c : AppConfig)
    → and_then port (λ p. and_then limit (λ l. returned (f p l))) ≡ returned c
    → (p : ℕ) × (l : Text) × (port ≡ returned p) × (limit ≡ returned l) × (c ≡ f p l)
config-returned (returned p) (returned l) f c h = (p, l, refl, refl, cc)
config-returned (returned p) (thrown e) f c h = cc
config-returned (thrown e) limit f c h = cc

-- If the configuration of the application is accepted, its port is between 1 and 65535, and its body
-- limit is the one of the environment, or 100kb, and is a positive number of kb or mb.
pub get_app_config_returned :
    (number : Text → Option ℕ) (env : Environment) (c : AppConfig)
    → get_app_config number env ≡ returned c
    → (1 ≤ c.port)
      × (c.port ≤ 65535)
      × (c.body_limit ≡ or_default (env (codes "BODY_LIMIT")))
      × IsBodyLimit c.body_limit
unfolding get_app_config parse_body_limit
get_app_config_returned number env c h =
    let (p, l, ported, limited, same) =
      config-returned (parse_port number (env (codes "PORT")))
        (parse_body_limit (env (codes "BODY_LIMIT"))) _ c h in
    let (low, high) = parse_port-returned number (env (codes "PORT")) p ported in
    let (limit, is_limit) =
      positive-returned (or_default (env (codes "BODY_LIMIT"))) l _ refl limited in
    (
      subst (λ x. 1 ≤ AppConfig.port x) (sym same) low,
      subst (λ x. AppConfig.port x ≤ 65535) (sym same) high,
      ap AppConfig.body_limit same ∙ limit,
      subst (λ x. IsBodyLimit (AppConfig.body_limit x)) (sym same)
          (subst IsBodyLimit (sym limit) is_limit),
    )
