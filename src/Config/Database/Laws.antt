-- ===== src/Config/Database/Laws.antt =====
-- The test database is never a target that the application's URL reaches.
use nest_js_tutorial.Base.{
  ◌≡◌, ◌≢◌, refl, sym, ap, subst, ◌∙◌, Bool, true, false, Option, none, some, Text, ◌==◌, ==_iff,
  List, [], ◌∷◌, Bool-cases, inl, inr, arith, if◌then◌else◌,
}
use nest_js_tutorial.Runtime.{returned}
use nest_js_tutorial.Articles.Tags.{contains}
use nest_js_tutorial.Config.Database.{
  normalize_database_host, Url, Urls, has_ambiguous_target_overrides, connection_ports, meets,
  invalid, separate, connection_hosts, same_database_target, postgres_url, compared, apart,
  test_target, get_test_database_config,
}
use nest_js_tutorial.Config.Database.Hosts.{
  written_hosts, is_same_host, normalized_same, written-connection,
}

-- A shared value is found.
shared :
    (first second : List Text) (h : Text)
    → contains first h ≡ true
    → contains second h ≡ true
    → meets first second ≡ true
shared [] second h p q = cc
shared (x ∷ xs) second h p q = elim (Bool-cases (x == h)) [
  | inl same ↦
      let e = (==_iff x h).0 same in
      let there : contains second x ≡ true = ap (contains second) e ∙ q in ground (arith, there)
  | inr other ↦ ground (arith, shared xs second h)
]

differs : (b : Bool) (url r : Text) → separate url (returned b) ≡ returned r → b ≡ false
differs true url r h = cc
differs false url r h = refl

module _ (urls : Urls) where
  target_lem :
      (a b : Text) (test application : Url)
      → meets (connection_hosts urls test) (connection_hosts urls application) ≡ true
      → meets (connection_ports test) (connection_ports application) ≡ true
      → urls.decode test.pathname ≡ returned a
      → urls.decode application.pathname ≡ returned b
      → same_database_target urls test application ≡ returned (a == b)
  unfolding same_database_target
  target_lem a b test application hosts ports left right = rw (hosts, ports, left, right) refl

  compared-returned :
      (url r : Text) (test : Url) (o : Option Url) (application : Url)
      → o ≡ some application
      → compared urls url test o ≡ returned r
      → separate url (same_database_target urls test application) ≡ returned r
  compared-returned url r test none application e h = cc
  compared-returned url r test (some app) application e h =
      let same : app ≡ application = cc in
      elim (Bool-cases (has_ambiguous_target_overrides app)) [
        | inl bad ↦
            let bad_end =
              sym (
                ap (λ b. if b then invalid else separate url (same_database_target urls test app))
                  bad)
              ∙ h in
            cc
        | inr good ↦
            ap (λ x. separate url (same_database_target urls test x)) (sym same)
            ∙ sym (
                ap (λ b. if b then invalid else separate url (same_database_target urls test app))
                  good)
            ∙ h
      ]

  target-returned :
      (url r : Text) (o : Option Url) (test : Url) (application : Option Text)
      → o ≡ some test
      → test_target urls url o application ≡ returned r
      → apart urls url test application ≡ returned r
  target-returned url r none test application e h = cc
  target-returned url r (some u) test application e h =
      let same : u ≡ test = cc in
      elim (Bool-cases (has_ambiguous_target_overrides u)) [
        | inl bad ↦
            let bad_end =
              sym (ap (λ b. if b then invalid else apart urls url u application) bad) ∙ h in
            cc
        | inr good ↦
            ap (λ x. apart urls url x application) (sym same)
            ∙ sym (ap (λ b. if b then invalid else apart urls url u application) good)
            ∙ h
      ]

  -- If the configuration of the test database is accepted, and the application has a URL, then the two
  -- are different targets: where they share a port, and a host of the one URL is written as a host of
  -- the other, up to case, or both are written as the loopback, that is as localhost, ::1, [::1] or
  -- 127. and a digit with any rest, the names of their databases differ. Other names of one machine are
  -- not compared.
  pub test_database_separate :
      (test_url application_url r : Text) (test application : Url)
      (test_host application_host port a b : Text)
      → get_test_database_config urls (some test_url) (some application_url) ≡ returned r
      → postgres_url urls test_url ≡ some test
      → postgres_url urls application_url ≡ some application
      → application_url ≢ []
      → contains (written_hosts test) test_host ≡ true
      → contains (written_hosts application) application_host ≡ true
      → is_same_host urls test_host application_host ≡ true
      → contains (connection_ports test) port ≡ true
      → contains (connection_ports application) port ≡ true
      → urls.decode test.pathname ≡ returned a
      → urls.decode application.pathname ≡ returned b
      → a ≢ b
  unfolding get_test_database_config
  test_database_separate [] application_url r test application test_host application_host port a b h
        t k non_empty h₁ h₂ same_host p₁ p₂ left right same =
      cc
  test_database_separate (c ∷ s) [] r test application test_host application_host port a b h t k
        non_empty h₁ h₂ same_host p₁ p₂ left right same =
      absurd (non_empty refl)
  test_database_separate (c ∷ s) (d ∷ q) r test application test_host application_host port a b h t
        k non_empty h₁ h₂ same_host p₁ p₂ left right same =
      let h = target-returned (c ∷ s) r (postgres_url urls (c ∷ s)) test (some (d ∷ q)) t h in
      let h = compared-returned (c ∷ s) r test (postgres_url urls (d ∷ q)) application k h in
      let target =
        target_lem a b test application
          (shared (connection_hosts urls test) (connection_hosts urls application)
            (normalize_database_host urls test_host) (written-connection urls test test_host h₁)
            (subst (λ x. contains (connection_hosts urls application) x ≡ true)
              (sym (normalized_same urls test_host application_host same_host))
              (written-connection urls application application_host h₂)))
          (shared (connection_ports test) (connection_ports application) port p₁ p₂) left right in
      let compared : separate (c ∷ s) (returned (a == b)) ≡ returned r =
        sym (ap (separate (c ∷ s)) target) ∙ h in
      let no_match = differs (a == b) (c ∷ s) r compared in let match = (==_iff a b).1 same in cc
