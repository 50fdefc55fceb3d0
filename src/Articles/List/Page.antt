-- ===== src/Articles/List/Page.antt =====
-- The rows of a page: how many they are, which, and in which order.
use nest_js_tutorial.Base.{
  ℕ, zero, suc, ◌-◌, ◌≡◌, refl, ap, ◌∙◌, Bool, true, false, ◌&&◌, Text, leb, List, [], ◌∷◌, take,
  drop, length, all, select, count, arith, if◌then◌else◌,
}
use nest_js_tutorial.Database.{Db, User, Article}
use nest_js_tutorial.Articles.List.{
  ArticleListQueryCriteria, matches, text_leb, is_newer, insert_by_age, order_by_age, article_rows,
  matching_rows, page_of,
}

abbrev pub smaller : ℕ → ℕ → ℕ
smaller a b = if leb a b then a else b

length-insert :
    (r : Article × User) (rs : List (Article × User))
    → length (insert_by_age r rs) ≡ suc (length rs)
unfolding insert_by_age
length-insert r [] = refl
length-insert r (s ∷ ss) = ground (arith, length-insert r ss)

length-order : (rs : List (Article × User)) → length (order_by_age rs) ≡ length rs
unfolding order_by_age
length-order [] = refl
length-order (r ∷ rs) = length-insert r (order_by_age rs) ∙ ap suc (length-order rs)

length-drop : (n : ℕ) (rs : List (Article × User)) → length (drop n rs) ≡ length rs - n
length-drop zero rs = omega arith
length-drop (suc n) [] = omega arith
length-drop (suc n) (r ∷ rs) = omega (arith, length-drop n rs)

length-take : (n : ℕ) (rs : List (Article × User)) → length (take n rs) ≡ smaller n (length rs)
length-take zero rs = ground arith
length-take (suc n) [] = ground arith
length-take (suc n) (r ∷ rs) = ground (arith, length-take n rs)

module _ (p : Article × User → Bool) where
  all-insert :
      (r : Article × User) (rs : List (Article × User))
      → p r ≡ true
      → all p rs ≡ true
      → all p (insert_by_age r rs) ≡ true
  unfolding insert_by_age
  all-insert r [] h k = ground arith
  all-insert r (s ∷ ss) h k = ground (arith, all-insert r ss h)

  all-order : (rs : List (Article × User)) → all p rs ≡ true → all p (order_by_age rs) ≡ true
  unfolding order_by_age
  all-order [] h = refl
  all-order (r ∷ rs) h = ground (arith, all-order rs, all-insert r (order_by_age rs))

  all-drop : (n : ℕ) (rs : List (Article × User)) → all p rs ≡ true → all p (drop n rs) ≡ true
  all-drop zero rs h = h
  all-drop (suc n) [] h = refl
  all-drop (suc n) (r ∷ rs) h = ground (arith, all-drop n rs)

  all-take : (n : ℕ) (rs : List (Article × User)) → all p rs ≡ true → all p (take n rs) ≡ true
  all-take zero rs h = refl
  all-take (suc n) [] h = refl
  all-take (suc n) (r ∷ rs) h = ground (arith, all-take n rs)

  all-select : (rs : List (Article × User)) → all p (select p rs) ≡ true
  unfolding select
  all-select [] = refl
  all-select (r ∷ rs) = ground (arith, all-select rs)

-- Newest first, and by the ids where the times are equal.
abbrev before_all : Article → List (Article × User) → Bool
before_all a [] = true
before_all a (r ∷ rs) = is_newer a r.0

abbrev pub is_newest_first : List (Article × User) → Bool
is_newest_first [] = true
is_newest_first (r ∷ rs) = before_all r.0 rs && is_newest_first rs

pub text_total : (s t : Text) → text_leb s t ≡ false → text_leb t s ≡ true
unfolding text_leb
text_total [] t h = cc
text_total (c ∷ s) [] h = refl
text_total (c ∷ s) (d ∷ t) h = ground (arith, text_total s t)

newer_total : (a b : Article) → is_newer a b ≡ false → is_newer b a ≡ true
unfolding is_newer
newer_total a b h = ground (arith, text_total b.id a.id)

before_inserted :
    (r s : Article × User) (ss : List (Article × User))
    → is_newer s.0 r.0 ≡ true
    → before_all s.0 ss ≡ true
    → before_all s.0 (insert_by_age r ss) ≡ true
unfolding insert_by_age
before_inserted r s [] h k = h
before_inserted r s (t ∷ ts) h k = ground arith

first-insert :
    (r : Article × User) (rs : List (Article × User))
    → is_newest_first rs ≡ true
    → is_newest_first (insert_by_age r rs) ≡ true
unfolding insert_by_age
first-insert r [] h = refl
first-insert r (s ∷ ss) h =
    ground (arith, first-insert r ss, before_inserted r s ss, newer_total r.0 s.0)

first-order : (rs : List (Article × User)) → is_newest_first (order_by_age rs) ≡ true
unfolding order_by_age
first-order [] = refl
first-order (r ∷ rs) = first-insert r (order_by_age rs) (first-order rs)

first-drop :
    (n : ℕ) (rs : List (Article × User))
    → is_newest_first rs ≡ true
    → is_newest_first (drop n rs) ≡ true
first-drop zero rs h = h
first-drop (suc n) [] h = refl
first-drop (suc n) (r ∷ rs) h = ground (arith, first-drop n rs)

first-take :
    (n : ℕ) (rs : List (Article × User))
    → is_newest_first rs ≡ true
    → is_newest_first (take n rs) ≡ true
first-take zero rs h = refl
first-take (suc n) [] h = refl
first-take (suc zero) (r ∷ rs) h = refl
first-take (suc (suc n)) (r ∷ []) h = refl
first-take (suc (suc n)) (r ∷ s ∷ ss) h = ground (arith, first-take (suc n) (s ∷ ss))

count-insert :
    (p : Article × User → Bool) (r : Article × User) (rs : List (Article × User))
    → count p (insert_by_age r rs) ≡ count p (r ∷ rs)
unfolding insert_by_age count
count-insert p r [] = refl
count-insert p r (s ∷ ss) = ground (arith, count-insert p r ss)

count-order :
    (p : Article × User → Bool) (rs : List (Article × User))
    → count p (order_by_age rs) ≡ count p rs
unfolding order_by_age count
count-order p [] = refl
count-order p (r ∷ rs) = ground (arith, count-insert p r (order_by_age rs), count-order p rs)

count-select :
    (p q : Article × User → Bool) (rs : List (Article × User))
    → count p (select q rs) ≡ count (λ r. q r && p r) rs
unfolding count select
count-select p q [] = refl
count-select p q (r ∷ rs) = ground (arith, count-select p q rs)

-- All articles that pass the filters, newest first: each of the stored articles with its author that
-- passes them is there as often as it is stored, and no other row.
pub record IsOrdered (criteria : ArticleListQueryCriteria) (d : Db) (rows : List (Article × User))
    : Type 0 where
  pub newest_first : is_newest_first rows ≡ true
  pub complete :
      (p : Article × User → Bool)
      → count p rows ≡ count (λ r. matches criteria d r && p r) (article_rows d.users d.articles)

-- The page is this slice of all the articles in their order.
pub page_of_lem :
    (criteria : ArticleListQueryCriteria) (offset limit : ℕ) (d : Db)
    → (rows : List (Article × User)) × IsOrdered criteria d rows
      × (page_of criteria offset limit d ≡ take limit (drop offset rows))
unfolding page_of matching_rows
page_of_lem criteria offset limit d =
    let rows = matching_rows criteria d in
    (
      order_by_age rows,
      record {
        newest_first = first-order rows;
        complete = λ p.
            count-order p rows
            ∙ count-select p (matches criteria d) (article_rows d.users d.articles);
      },
      refl,
    )

-- The size of a page, and the filters that its articles pass.
pub size_of_page :
    (criteria : ArticleListQueryCriteria) (offset limit : ℕ) (d : Db)
    → (length (page_of criteria offset limit d)
        ≡ smaller limit (length (matching_rows criteria d) - offset))
      × (all (matches criteria d) (page_of criteria offset limit d) ≡ true)
      × (is_newest_first (page_of criteria offset limit d) ≡ true)
unfolding page_of matching_rows
size_of_page criteria offset limit d =
    let rows = matching_rows criteria d in
    let p = matches criteria d in
    (
      length-take limit (drop offset (order_by_age rows))
          ∙ ap (smaller limit)
              (length-drop offset (order_by_age rows) ∙ ap (λ n. n - offset) (length-order rows)),
      all-take p limit _ (all-drop p offset _ (all-order p rows (all-select p _))),
      first-take limit _ (first-drop offset _ (first-order rows)),
    )
