-- ===== src/Articles/Delete/Laws.antt =====
-- What ArticleDeleteService.delete guarantees.
use nest_js_tutorial.Base.{
  ◌≤◌, ◌≡◌, true, not, Option, none, some, Text, ◌==◌, count, if◌then◌else◌, arith, ==_refl,
  find-count, Bool-cases, Option-cases, inl, inr, sym, ap, ◌∙◌, not-false,
}
use nest_js_tutorial.Runtime.{Exception, Outcome, returned, thrown}
use nest_js_tutorial.Database.Transactions.{guarded-thrown, guarded-returned}
use nest_js_tutorial.Runtime.Inversion.{throw_if-returned}
use nest_js_tutorial.Database.Steps.{require-step, throw_if-step, execute-step}
use nest_js_tutorial.Database.{Db, User, Article, Orm, World}
use nest_js_tutorial.Database.Reliable.{IsReliable}
use nest_js_tutorial.Database.Statements.{user_by_username, article_by_slug}
use nest_js_tutorial.Articles.Delete.{
  delete_article, is_expected_delete_error, delete_in_transaction, delete_error, delete,
}

-- The specification: who may delete what, and with which effect.
abbrev pub delete_decision : Option User → Option Article → Db → Outcome (Unit {0}) × Db
delete_decision none found d = (thrown Exception.article_delete_user_not_found, d)
delete_decision (some user) none d = (thrown Exception.article_delete_article_not_found, d)
delete_decision (some user) (some article) d =
    if article.author_id == user.id
    then (returned tt, (delete_article article.id d).1)
    else (thrown Exception.article_delete_forbidden, d)

abbrev pub HasUniqueArticleIds : Db → Type 0
HasUniqueArticleIds d = (id : Text) → count (λ a. Article.id a == id) d.articles ≤ 1

count_found :
    (d : Db) (slug : Text) (a : Article)
    → HasUniqueArticleIds d
    → article_by_slug slug d ≡ some a
    → count (λ b. Article.id b == a.id) d.articles ≡ 1
unfolding article_by_slug
count_found d slug a unique h =
    omega (arith, unique a.id, find-count _ (λ b. Article.id b == a.id) d.articles h (==_refl a.id))

-- The user of this name is the author of the article, which is gone with all that refers to it.
abbrev pub IsDeletedBy : Text → Text → Db → Db → Type 0
IsDeletedBy slug username d d' =
    (user : User) × (article : Article) × (user_by_username username d ≡ some user)
    × (article_by_slug slug d ≡ some article)
    × (article.author_id == user.id ≡ true)
    × (d' ≡ (delete_article article.id d).1)

delete_error_expected : (e : Exception) → is_expected_delete_error (delete_error e) ≡ true
unfolding is_expected_delete_error
delete_error_expected e = elim (Bool-cases (is_expected_delete_error e)) [
  | inl same ↦ rw same same
  | inr other ↦ rw other
]

module _ (orm : Orm) where
  -- With a driver that does not fail by itself and unique article ids, a deletion ends exactly as the
  -- decision says: an unknown user, an unknown article and another author are refused and nothing
  -- changes, and the author's deletion succeeds.
  pub delete_reliable :
      (reliable : IsReliable orm) (slug username : Text) (w : World orm.Env)
      → HasUniqueArticleIds w.db
      → let (r, w') = delete orm slug username w in
        (r, w'.db)
        ≡ delete_decision (user_by_username username w.db) (article_by_slug slug w.db) w.db
  unfolding delete delete_in_transaction delete_article is_expected_delete_error
  delete_reliable reliable slug username w unique =
      elim (Option-cases (user_by_username username w.db)) [
        | inl no_user ↦ simp (reliable.transaction_eq, reliable.execute_eq, no_user)
        | inr (u, user) ↦ elim (Option-cases (article_by_slug slug w.db)) [
          | inl no_article ↦ simp (reliable.transaction_eq, reliable.execute_eq, user, no_article)
          | inr (a, article) ↦ elim (Bool-cases (a.author_id == u.id)) [
            | inl mine ↦ simp (
              reliable.transaction_eq,
              reliable.execute_eq,
              user,
              article,
              mine,
              count_found w.db slug a unique article,
            )
            | inr other ↦ simp (reliable.transaction_eq, reliable.execute_eq, user, article, other)
          ]
        ]
      ]

  -- If a deletion throws, no row has changed, and the error is one of the four that the service
  -- declares.
  pub delete_atomic :
      (slug username : Text) (w w' : World orm.Env) (e : Exception)
      → delete orm slug username w ≡ (thrown e, w')
      → (w'.db ≡ w.db) × (is_expected_delete_error e ≡ true)
  unfolding delete
  delete_atomic slug username w w' e h =
      let p = guarded-thrown orm (delete_in_transaction orm slug username) delete_error w h in
      (p.0, rw (p.1.1) (delete_error_expected p.1.0))

  -- Whatever the driver does, if a deletion returns then the user is the author of the article, and the
  -- article is gone with its tags, favourites and comments.
  pub delete_returned :
      (slug username : Text) (w w' : World orm.Env)
      → delete orm slug username w ≡ (returned tt, w')
      → IsDeletedBy slug username w.db w'.db
  unfolding delete delete_in_transaction
  delete_returned slug username w w' h =
      let (v, v', run, start, end) =
        guarded-returned orm (delete_in_transaction orm slug username) delete_error w h in
      let (user, t, found_user, same, run) =
        require-step orm _ v (user_by_username username) _ run in
      let (article, t', found_article, same', run) =
        require-step orm _ t (article_by_slug slug) _ run in
      let (mine, run) = throw_if-step orm _ t' (not (article.author_id == user.id)) _ run in
      let (n, t'', deleted, run) = execute-step orm _ t' (delete_article article.id) run in
      let (one, done) = throw_if-returned _ _ t'' v' tt run in
      let db = same' ∙ same ∙ start in
      (
        user,
        article,
        ap (user_by_username username) (sym start) ∙ found_user,
        ap (article_by_slug slug) (sym (same ∙ start)) ∙ found_article,
        not-false _ mine,
        sym end
            ∙ ap World.db (sym done)
            ∙ sym (ap (λ o. o.1) deleted)
            ∙ ap (λ d. (delete_article article.id d).1) db,
      )
