-- ===== src/Articles/Favorite/Laws.antt =====
-- What ArticleFavoriteService guarantees.
use nest_js_tutorial.Base.{
  ℕ, ◌≡◌, refl, sym, ap, ◌∙◌, subst, Bool, true, false, not, Option, none, some, Text, ==_refl,
  List, [], ◌∷◌, ◌++◌, any, select, arith, Bool-cases, inl, inr, select-append,
}
use mathlib.Core.List.{append-nil}
use mathlib.Core.Path.{ap₂}
use nest_js_tutorial.Runtime.{returned}
use nest_js_tutorial.Database.{Db, User, Article, ArticleFavorite, Orm, World}
use nest_js_tutorial.Database.Statements.{user_by_username, article_by_slug}
use nest_js_tutorial.Database.Transactions.{transaction-returned}
use nest_js_tutorial.Database.Steps.{require-step, command-step}
use nest_js_tutorial.Serializers.{ArticleDetail, serialize_article_detail, to_article_fields}
use nest_js_tutorial.Articles.Read.{with_author, article_and_author, has_favorite}
use nest_js_tutorial.Articles.Read.Laws.{detail_for, get_by_slug_returned}
use nest_js_tutorial.Articles.Favorite.{
  is_favorite, add_favorite, remove_favorite, change_favorite, create, delete,
}

any-append :
    (p : ArticleFavorite → Bool) (xs : List ArticleFavorite) (x : ArticleFavorite)
    → p x ≡ true
    → any p (xs ++ x ∷ []) ≡ true
any-append p [] x h = rw h
any-append p (y ∷ ys) x h = ground (arith, any-append p ys x h)

any-removed :
    (p : ArticleFavorite → Bool) (xs : List ArticleFavorite)
    → any p (select (λ x. not (p x)) xs) ≡ false
unfolding select
any-removed p [] = refl
any-removed p (x ∷ xs) = ground (arith, any-removed p xs)

pub has_favorite-add : (a u : Text) (d : Db) → has_favorite a u (add_favorite a u d) ≡ true
unfolding has_favorite add_favorite
has_favorite-add a u d = elim (Bool-cases (any (is_favorite a u) d.article_favorites)) [
  | inl old ↦ rw old old
  | inr new ↦
      rw new (any-append (is_favorite a u) d.article_favorites _ (rw (==_refl a) (==_refl u)))
]

pub has_favorite-remove : (a u : Text) (d : Db) → has_favorite a u (remove_favorite a u d) ≡ false
unfolding has_favorite remove_favorite
has_favorite-remove a u d = any-removed (is_favorite a u) d.article_favorites

-- The favourites of other users and of other articles, and all other tables, are as before.
pub record IsOthersKept (a u : Text) (d d' : Db) : Type 0 where
  pub tables : d' ≡ record d { article_favorites = d'.article_favorites }
  pub others :
      select (λ f. not (is_favorite a u f)) d'.article_favorites
      ≡ select (λ f. not (is_favorite a u f)) d.article_favorites

add_favorite-IsOthersKept : (a u : Text) (d : Db) → IsOthersKept a u d (add_favorite a u d)
unfolding add_favorite select
add_favorite-IsOthersKept a u d = elim (Bool-cases (any (is_favorite a u) d.article_favorites)) [
  | inl old ↦ rw old (record { tables = refl; others = refl })
  | inr new ↦ rw new (record {
    tables = refl;
    others =
        select-append (λ f. not (is_favorite a u f)) d.article_favorites
          (record { article_id = a; user_id = u } ∷ [])
        ∙ rw (==_refl a) (rw (==_refl u) (append-nil _));
  })
]

select_twice :
    (p : ArticleFavorite → Bool) (xs : List ArticleFavorite) → select p (select p xs) ≡ select p xs
unfolding select
select_twice p [] = refl
select_twice p (x ∷ xs) = ground (arith, select_twice p xs)

remove_favorite-IsOthersKept : (a u : Text) (d : Db) → IsOthersKept a u d (remove_favorite a u d)
unfolding remove_favorite
remove_favorite-IsOthersKept a u d = record {
  tables = refl;
  others = select_twice _ d.article_favorites;
}

with_author-some :
    (found : Option Article) (d : Db) (shown : Article × User)
    → with_author found d ≡ some shown
    → found ≡ some shown.0
with_author-some none d shown h = cc
with_author-some (some a) d shown h = ground arith

-- The favourite of this user and article is stored, or is not, as the flag says.
pub record IsFavoriteSet (slug username : Text) (flag : Bool) (d d' : Db) (r : ArticleDetail)
    : Type 0 where
  pub user : User
  pub article : Article
  pub found_user : user_by_username username d ≡ some user
  pub found_article : article_by_slug slug d ≡ some article
  pub stored : has_favorite article.id user.id d' ≡ flag
  pub shown : r.fields.favorited ≡ flag
  pub kept : IsOthersKept article.id user.id d d'

same_user :
    (name : Text) (d d' : Db)
    → d' ≡ record d { article_favorites = d'.article_favorites }
    → user_by_username name d' ≡ user_by_username name d
unfolding user_by_username
same_user name d d' h = ap (user_by_username name) h

same_article :
    (slug : Text) (d d' : Db)
    → d' ≡ record d { article_favorites = d'.article_favorites }
    → article_by_slug slug d' ≡ article_by_slug slug d
unfolding article_by_slug
same_article slug d d' h = ap (article_by_slug slug) h

-- The flag of the response, when only favourites have been written since the lookups.
favorited_lem :
    (slug name : Text) (d d' : Db) (r : ArticleDetail) (user u : User) (article : Article)
    (shown : Article × User)
    → d' ≡ record d { article_favorites = d'.article_favorites }
    → user_by_username name d ≡ some user
    → article_by_slug slug d ≡ some article
    → article_and_author slug d' ≡ some shown
    → user_by_username name d' ≡ some u
    → r ≡ detail_for shown (some u) d'
    → r.fields.favorited ≡ has_favorite article.id user.id d'
unfolding article_and_author serialize_article_detail to_article_fields
favorited_lem slug name d d' r user u article shown tables found_user found_article seen viewed
      result =
    let same₁ : u ≡ user = cc (same_user name d d' tables) in
    let same₂ : shown.0 ≡ article =
      cc
        (same_article slug d d' tables, with_author-some (article_by_slug slug d') d' shown seen) in
    ap (λ (x : ArticleDetail). x.fields.favorited) result
    ∙ ap₂ (λ (a : Article) (x : User). has_favorite a.id x.id d') same₂ same₁

module _ (orm : Orm) where
  -- The callback of both operations, for a statement that writes favourites only.
  change_favorite-returned :
      (change : Text → Text → Db → Db) (slug : Text) (c : ℕ) (cs : Text) (w w' : World orm.Env)
      (r : ArticleDetail)
      → ((a u : Text) (d : Db) → IsOthersKept a u d (change a u d))
      → change_favorite orm change slug (c ∷ cs) w ≡ (returned r, w')
      → (user : User) × (article : Article) × (user_by_username (c ∷ cs) w.db ≡ some user)
        × (article_by_slug slug w.db ≡ some article)
        × (w'.db ≡ change article.id user.id w.db)
        × (r.fields.favorited ≡ has_favorite article.id user.id w'.db)
  unfolding change_favorite
  change_favorite-returned change slug c cs w w' r kept h =
      let (user, t, found_user, s₁, h) = require-step orm _ w (user_by_username (c ∷ cs)) _ h in
      let (article, t₂, found_article, s₂, h) = require-step orm _ t (article_by_slug slug) _ h in
      let (t₃, changed, h) = command-step orm _ t₂ (change article.id user.id) h in
      let (shown, viewer, seen, is_viewer, result, s₄) =
        get_by_slug_returned orm slug (some (c ∷ cs)) t₃ w' r h in
      let (u, is_some, viewed) = is_viewer in
      let db = changed ∙ ap (change article.id user.id) (s₂ ∙ s₁) in
      let tables =
        subst (λ x. x ≡ record w.db { article_favorites = Db.article_favorites x }) (sym db)
          (IsOthersKept.tables (kept article.id user.id w.db)) in
      let found = ap (article_by_slug slug) (sym s₁) ∙ found_article in
      (
        user,
        article,
        found_user,
        found,
        s₄ ∙ db,
        favorited_lem slug (c ∷ cs) w.db t₃.db r user u article shown tables found_user found seen
              viewed (result ∙ ap (λ v. detail_for shown v t₃.db) is_some)
            ∙ ap (has_favorite article.id user.id) (sym s₄),
      )

  -- The conclusion of both operations.
  change-returned :
      (change : Text → Text → Db → Db) (slug : Text) (c : ℕ) (cs : Text) (w w' : World orm.Env)
      (r : ArticleDetail) (b : Bool)
      → ((a u : Text) (d : Db) → IsOthersKept a u d (change a u d))
      → ((a u : Text) (d : Db) → has_favorite a u (change a u d) ≡ b)
      → orm.transaction (change_favorite orm change slug (c ∷ cs)) w ≡ (returned r, w')
      → IsFavoriteSet slug (c ∷ cs) b w.db w'.db r
  change-returned change slug c cs w w' r b kept set h =
      let (v, v', run, start, end) =
        transaction-returned orm (change_favorite orm change slug (c ∷ cs)) w h in
      let (user, article, found_user, found, db, flag) =
        change_favorite-returned change slug c cs v v' r kept run in
      let written : w'.db ≡ change article.id user.id w.db =
        sym end ∙ db ∙ ap (change article.id user.id) start in
      record {
        user = user;
        article = article;
        found_user = ap (user_by_username (c ∷ cs)) (sym start) ∙ found_user;
        found_article = ap (article_by_slug slug) (sym start) ∙ found;
        stored = ap (has_favorite article.id user.id) written ∙ set article.id user.id w.db;
        shown = flag ∙ ap (has_favorite article.id user.id) db ∙ set article.id user.id v.db;
        kept =
            subst (IsOthersKept article.id user.id w.db) (sym written)
              (kept article.id user.id w.db);
      }

  -- Whatever the driver does, if a request to favourite an article, by a user whose name is not empty,
  -- returns then the user and the article are there, the favourite is stored and shown in the response,
  -- and all else is as before.
  pub favorite_returned :
      (slug : Text) (c : ℕ) (cs : Text) (w w' : World orm.Env) (r : ArticleDetail)
      → create orm slug (c ∷ cs) w ≡ (returned r, w')
      → IsFavoriteSet slug (c ∷ cs) true w.db w'.db r
  unfolding create
  favorite_returned slug c cs w w' r h =
      change-returned add_favorite slug c cs w w' r true add_favorite-IsOthersKept has_favorite-add
        h

  -- Whatever the driver does, if a request to take a favourite back, by a user whose name is not empty,
  -- returns then the user and the article are there, the favourite is not stored and not shown in the
  -- response, and all else is as before.
  pub unfavorite_returned :
      (slug : Text) (c : ℕ) (cs : Text) (w w' : World orm.Env) (r : ArticleDetail)
      → delete orm slug (c ∷ cs) w ≡ (returned r, w')
      → IsFavoriteSet slug (c ∷ cs) false w.db w'.db r
  unfolding delete
  unfavorite_returned slug c cs w w' r h =
      change-returned remove_favorite slug c cs w w' r false remove_favorite-IsOthersKept
        has_favorite-remove h
