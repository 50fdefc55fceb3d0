-- ===== src/Comments/Order.antt =====
-- The comments that `list` reads: which they are, and their order.
use nest_js_tutorial.Base.{
  ◌≡◌, refl, ◌∙◌, Bool, true, false, ◌&&◌, Text, ◌==◌, List, [], ◌∷◌, arith, find, select, count,
  any, All, Option-cases, find-none, inl, inr,
}
use nest_js_tutorial.Database.{Db, User, Comment}
use nest_js_tutorial.Comments.{is_before, insert_by_age, order_by_age, with_authors, comments_of}

abbrev before_all : Comment → List (Comment × User) → Bool
before_all c [] = true
before_all c (d ∷ ds) = is_before c d.0

-- Oldest first, and by the ids where the times are equal.
abbrev pub is_oldest_first : List (Comment × User) → Bool
is_oldest_first [] = true
is_oldest_first (c ∷ cs) = before_all c.0 cs && is_oldest_first cs

before_total : (c d : Comment) → is_before c d ≡ false → is_before d c ≡ true
before_total c d h = ground arith

before_inserted :
    (c d : Comment × User) (ds : List (Comment × User))
    → is_before d.0 c.0 ≡ true
    → before_all d.0 ds ≡ true
    → before_all d.0 (insert_by_age c ds) ≡ true
unfolding insert_by_age
before_inserted c d [] h k = h
before_inserted c d (e ∷ es) h k = ground arith

insert_by_age_lem :
    (c : Comment × User) (cs : List (Comment × User))
    → is_oldest_first cs ≡ true
    → is_oldest_first (insert_by_age c cs) ≡ true
unfolding insert_by_age
insert_by_age_lem c [] h = refl
insert_by_age_lem c (d ∷ ds) h =
    ground (arith, insert_by_age_lem c ds, before_inserted c d ds, before_total c.0 d.0)

order_by_age_lem : (cs : List (Comment × User)) → is_oldest_first (order_by_age cs) ≡ true
unfolding order_by_age
order_by_age_lem [] = refl
order_by_age_lem (c ∷ cs) = insert_by_age_lem c (order_by_age cs) (order_by_age_lem cs)

count-insert :
    (p : Comment × User → Bool) (c : Comment × User) (cs : List (Comment × User))
    → count p (insert_by_age c cs) ≡ count p (c ∷ cs)
unfolding insert_by_age count
count-insert p c [] = refl
count-insert p c (d ∷ ds) = ground (arith, count-insert p c ds)

count-order :
    (p : Comment × User → Bool) (cs : List (Comment × User))
    → count p (order_by_age cs) ≡ count p cs
unfolding order_by_age count
count-order p [] = refl
count-order p (c ∷ cs) = ground (arith, count-insert p c (order_by_age cs), count-order p cs)

-- The foreign key of the author.
abbrev pub HasAuthors : List User → List Comment → Type 0
HasAuthors users = All (λ c. any (λ u. User.id u == Comment.author_id c) users ≡ true)

count-with_authors :
    (p : Comment → Bool) (users : List User) (cs : List Comment)
    → HasAuthors users cs
    → count (λ c. p (c.0)) (with_authors users cs) ≡ count p cs
unfolding with_authors count
count-with_authors p users [] h = refl
count-with_authors p users (c ∷ cs) h =
    elim (Option-cases (find (λ u. User.id u == c.author_id) users)) [
      | inl absent ↦ cc (h.0, find-none (λ u. User.id u == c.author_id) users absent)
      | inr (u, found) ↦ ground (arith, found, count-with_authors p users cs h.1)
    ]

-- `list` reads the comments of the article, oldest first, each of them as often as it is stored, if
-- the authors of the comments are there.
pub comments_of_lem :
    (article_id : Text) (d : Db) (p : Comment → Bool)
    → HasAuthors d.users (select (λ c. Comment.article_id c == article_id) d.comments)
    → (is_oldest_first (comments_of article_id d) ≡ true)
      × (count (λ c. p (c.0)) (comments_of article_id d)
          ≡ count p (select (λ c. Comment.article_id c == article_id) d.comments))
unfolding comments_of
comments_of_lem article_id d p h =
    let rows = select (λ c. Comment.article_id c == article_id) d.comments in
    (
      order_by_age_lem (with_authors d.users rows),
      count-order (λ c. p (c.0)) (with_authors d.users rows) ∙ count-with_authors p d.users rows h,
    )
