-- ===== src/Config/Database/Hosts.antt =====
-- The names of a host that the comparison of two targets takes to be the same.
use nest_js_tutorial.Base.{
  ℕ, ◌≡◌, refl, sym, ap, ◌∙◌, Bool, true, false, ◌&&◌, ◌||◌, Text, codes, ◌==◌, ==_iff, eqb, List,
  [], ◌∷◌, map, is_digit, Bool-cases, inl, inr, arith, if◌then◌else◌,
}
use nest_js_tutorial.Articles.Tags.{contains}
use nest_js_tutorial.Files.Storage.{starts_with}
use nest_js_tutorial.Config.Database.{
  Url, Urls, split_commas, first_or, get_all, without_first, without_last, normalize_database_host,
  connection_hosts,
}

-- `127.` and a digit.
abbrev is_127 : Text → Bool
is_127 (a ∷ b ∷ c ∷ d ∷ e ∷ s) = eqb a 49 && (eqb b 50 && (eqb c 55 && (eqb d 46 && is_digit e)))
is_127 _ = false

-- Names of the machine itself, in lower case.
abbrev pub is_loopback : Text → Bool
is_loopback s = s == codes "localhost" || (s == codes "::1" || (s == codes "[::1]" || is_127 s))

abbrev bare : Text → Text
bare s = without_last 46 (without_last 93 (without_first 91 s))

abbrev named_loopback : Text → Bool
named_loopback host =
    host == codes "localhost" || (host == codes "::1" || starts_with (codes "127.") host)

digit-kept : (c e : ℕ) (s : Text) → eqb e c ≡ false → (t : Text) × (without_last c (e ∷ s) ≡ e ∷ t)
unfolding without_last
digit-kept c e [] h = ([], rw h refl)
digit-kept c e (f ∷ s) h = (without_last c (f ∷ s), refl)

bare_127 :
    (e : ℕ) (s : Text)
    → is_digit e ≡ true
    → named_loopback (bare (49 ∷ 50 ∷ 55 ∷ 46 ∷ e ∷ s)) ≡ true
unfolding without_last starts_with ◌==◌
bare_127 e s h =
    let (t, kept) = digit-kept 93 e s (ground arith) in
    let first : without_last 93 (49 ∷ 50 ∷ 55 ∷ 46 ∷ e ∷ s) ≡ 49 ∷ 50 ∷ 55 ∷ 46 ∷ e ∷ t =
      ap (λ x. 49 ∷ 50 ∷ 55 ∷ 46 ∷ x) kept in
    ap (λ x. named_loopback (without_last 46 x)) first

closed_names :
    (named_loopback (bare (codes "localhost")) ≡ true)
    × (named_loopback (bare (codes "::1")) ≡ true)
    × (named_loopback (bare (codes "[::1]")) ≡ true)
unfolding without_last starts_with ◌==◌
closed_names = (refl, refl, refl)

of_127 : (s : Text) → is_127 s ≡ true → named_loopback (bare s) ≡ true
of_127 (a ∷ b ∷ c ∷ d ∷ e ∷ s) h =
    let a_eq : a ≡ 49 = ground arith in
    let b_eq : b ≡ 50 = ground arith in
    let c_eq : c ≡ 55 = ground arith in
    let d_eq : d ≡ 46 = ground arith in
    let digit : is_digit e ≡ true = ground arith in rw (a_eq, b_eq, c_eq, d_eq) (bare_127 e s digit)
of_127 [] h = cc
of_127 (a ∷ []) h = cc
of_127 (a ∷ b ∷ []) h = cc
of_127 (a ∷ b ∷ c ∷ []) h = cc
of_127 (a ∷ b ∷ c ∷ d ∷ []) h = cc

bare_loopback : (s : Text) → is_loopback s ≡ true → named_loopback (bare s) ≡ true
bare_loopback s h =
    let (localhost, short, bracketed) = closed_names in
    elim (Bool-cases (s == codes "localhost")) [
      | inl named ↦
          ap (λ x. named_loopback (bare x)) ((==_iff s (codes "localhost")).0 named) ∙ localhost
      | inr a ↦ elim (Bool-cases (s == codes "::1")) [
        | inl named ↦ ap (λ x. named_loopback (bare x)) ((==_iff s (codes "::1")).0 named) ∙ short
        | inr b ↦ elim (Bool-cases (s == codes "[::1]")) [
          | inl named ↦
              ap (λ x. named_loopback (bare x)) ((==_iff s (codes "[::1]")).0 named) ∙ bracketed
          | inr c ↦ of_127 s (rw (a, b, c) at h)
        ]
      ]
    ]

or_true : (b : Bool) → (b || true) ≡ true
or_true true = refl
or_true false = refl

both : (a b : Bool) → (a && b) ≡ true → (a ≡ true) × (b ≡ true)
both true b h = (refl, h)
both false b h = cc

contains-map :
    (f : Text → Text) (xs : List Text) (x : Text)
    → contains xs x ≡ true
    → contains (map f xs) (f x) ≡ true
contains-map f [] x h = cc
contains-map f (y ∷ ys) x h = elim (Bool-cases (y == x)) [
  | inl here ↦
      let same : (f y == f x) ≡ true = (==_iff (f y) (f x)).1 (ap f ((==_iff y x).0 here)) in
      rw same refl
  | inr other ↦ let rest = contains-map f ys x (rw other at h) in rw rest (or_true (f y == f x))
]

-- The hosts of a URL, as they are written.
abbrev pub written_hosts : Url → List Text
written_hosts url = split_commas (first_or url.hostname (get_all (codes "host") url.search_params))

module _ (urls : Urls) where
  -- The same text, up to case, or two names of the machine itself.
  abbrev pub is_same_host : Text → Text → Bool
  is_same_host a b =
      urls.to_lower_case a == urls.to_lower_case b
      || (is_loopback (urls.to_lower_case a) && is_loopback (urls.to_lower_case b))

  normalized_loopback :
      (host : Text)
      → is_loopback (urls.to_lower_case host) ≡ true
      → normalize_database_host urls host ≡ codes "loopback"
  unfolding normalize_database_host
  normalized_loopback host h = rw (bare_loopback (urls.to_lower_case host) h) refl

  pub normalized_same :
      (a b : Text)
      → is_same_host a b ≡ true
      → normalize_database_host urls a ≡ normalize_database_host urls b
  unfolding normalize_database_host
  normalized_same a b h = elim (Bool-cases (urls.to_lower_case a == urls.to_lower_case b)) [
    | inl same ↦
        let e = (==_iff (urls.to_lower_case a) (urls.to_lower_case b)).0 same in
        ap (λ x. if named_loopback (bare x) then codes "loopback" else bare x) e
    | inr other ↦
        let left : is_loopback (urls.to_lower_case a) ≡ true = (both _ _ (rw other at h)).0 in
        let right : is_loopback (urls.to_lower_case b) ≡ true = (both _ _ (rw other at h)).1 in
        normalized_loopback a left ∙ sym (normalized_loopback b right)
  ]

  pub written-connection :
      (url : Url) (host : Text)
      → contains (written_hosts url) host ≡ true
      → contains (connection_hosts urls url) (normalize_database_host urls host) ≡ true
  unfolding connection_hosts
  written-connection url host h =
      contains-map (normalize_database_host urls) (written_hosts url) host h
