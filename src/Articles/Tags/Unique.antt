-- ===== src/Articles/Tags/Unique.antt =====
-- What `[...new Set(names)]` keeps of a list of names.
use nest_js_tutorial.Base.{
  ◌≡◌, refl, Bool, true, false, not, ◌||◌, ◌&&◌, Text, ==_iff, ==_refl, List, [], ◌∷◌, any, arith,
  Bool-cases, inl, inr,
}
use nest_js_tutorial.Articles.Tags.{contains, unique_from, unique_article_tag_names}

-- No name occurs twice.
abbrev pub has_no_repeats : List Text → Bool
has_no_repeats [] = true
has_no_repeats (x ∷ xs) = not (contains xs x) && has_no_repeats xs

pub contains-unique_from :
    (seen names : List Text) (x : Text)
    → (contains seen x || contains (unique_from seen names) x)
      ≡ (contains seen x || contains names x)
unfolding unique_from
contains-unique_from seen [] x = refl
contains-unique_from seen (n ∷ names) x = elim (Bool-cases (contains seen n)) [
  | inl old ↦ ground (arith, contains-unique_from seen names x, ==_iff n x)
  | inr new ↦ ground (arith, contains-unique_from (n ∷ seen) names x)
]

not_again :
    (seen names : List Text) (x : Text)
    → contains seen x ≡ true
    → contains (unique_from seen names) x ≡ false
unfolding unique_from
not_again seen [] x h = refl
not_again seen (n ∷ names) x h = elim (Bool-cases (contains seen n)) [
  | inl old ↦ rw old (not_again seen names x h)
  | inr new ↦ ground (arith, not_again (n ∷ seen) names x, ==_iff n x)
]

unique_from-no_repeats : (seen names : List Text) → has_no_repeats (unique_from seen names) ≡ true
unfolding unique_from
unique_from-no_repeats seen [] = refl
unique_from-no_repeats seen (n ∷ names) = elim (Bool-cases (contains seen n)) [
  | inl old ↦ rw old (unique_from-no_repeats seen names)
  | inr new ↦
      ground
        (arith, unique_from-no_repeats (n ∷ seen) names, not_again (n ∷ seen) names n, ==_refl n)
]

any-contains_cons :
    (seen names : List Text) (n : Text)
    → contains names n ≡ false
    → any (contains seen) names ≡ false
    → any (contains (n ∷ seen)) names ≡ false
any-contains_cons seen [] n h k = refl
any-contains_cons seen (x ∷ names) n h k =
    ground (arith, any-contains_cons seen names n, ==_iff n x, ==_iff x n)

-- A list without repetitions is kept as it is.
unique_from_of_no_repeats :
    (seen names : List Text)
    → has_no_repeats names ≡ true
    → any (contains seen) names ≡ false
    → unique_from seen names ≡ names
unfolding unique_from
unique_from_of_no_repeats seen [] h k = refl
unique_from_of_no_repeats seen (n ∷ names) h k =
    ground (arith, unique_from_of_no_repeats (n ∷ seen) names, any-contains_cons seen names n)

any-contains_nil : (names : List Text) → any (contains []) names ≡ false
any-contains_nil [] = refl
any-contains_nil (n ∷ names) = any-contains_nil names

pub unique_idempotent :
    (names : List Text)
    → unique_article_tag_names (unique_article_tag_names names) ≡ unique_article_tag_names names
unfolding unique_article_tag_names
unique_idempotent names =
    unique_from_of_no_repeats [] (unique_from [] names) (unique_from-no_repeats [] names)
      (any-contains_nil (unique_from [] names))

-- The names of an article's tags are those requested, and no name occurs twice.
pub unique_article_tag_names_lem :
    (names : List Text)
    → (has_no_repeats (unique_article_tag_names names) ≡ true)
      × ((x : Text) → contains (unique_article_tag_names names) x ≡ contains names x)
unfolding unique_article_tag_names
unique_article_tag_names_lem names =
    (unique_from-no_repeats [] names, λ x. contains-unique_from [] names x)
