-- ===== src/Articles/Delete.antt =====
-- ArticleDeleteService (articles/article.service.ts) and the statements that it runs.
pub mod Laws
use nest_js_tutorial.Base.{
  ℕ, ◌≡◌, Bool, true, false, not, Option, none, some, Text, ◌==◌, eqb, find, select, count,
  if◌then◌else◌,
}
use nest_js_tutorial.Runtime.{
  Exception, Outcome, returned, thrown, M, pure, throw, throw_if, ◌>>=◌, ◌>>◌, try_catch,
}
use nest_js_tutorial.Database.{
  Db, User, Article, ArticleTag, ArticleFavorite, Comment, Orm, World, Statement,
}
use nest_js_tutorial.Database.Statements.{user_by_username, article_by_slug, require}

-- `delete({ id })` on the articles; the foreign keys of their tags, favourites and comments say
-- ON DELETE CASCADE.
unfoldable pub delete_article : Text → Statement ℕ
delete_article id d = (
  returned (count (λ a. Article.id a == id) d.articles),
  record d {
    articles = select (λ a. not (Article.id a == id)) d.articles;
    article_tags = select (λ t. not (ArticleTag.article_id t == id)) d.article_tags;
    article_favorites = select (λ f. not (ArticleFavorite.article_id f == id)) d.article_favorites;
    comments = select (λ c. not (Comment.article_id c == id)) d.comments;
  },
)

-- isExpectedDeleteError
unfoldable pub is_expected_delete_error : Exception → Bool
is_expected_delete_error Exception.article_delete_user_not_found = true
is_expected_delete_error Exception.article_delete_article_not_found = true
is_expected_delete_error Exception.article_delete_forbidden = true
is_expected_delete_error Exception.article_delete_persistence = true
is_expected_delete_error _ = false

-- The `catch` block of `delete`.
abbrev pub delete_error : Exception → Exception
delete_error e = if is_expected_delete_error e then e else Exception.article_delete_persistence

module _ (orm : Orm) where
  -- The callback that runs in the transaction.
  unfoldable pub delete_in_transaction : Text → Text → M (World orm.Env) (Unit {0})
  delete_in_transaction slug username = do
    user ← require orm (user_by_username username) Exception.article_delete_user_not_found
    article ← require orm (article_by_slug slug) Exception.article_delete_article_not_found
    throw_if (not (article.author_id == user.id)) Exception.article_delete_forbidden
    affected ← orm.execute (delete_article article.id)
    throw_if (not (eqb affected 1)) Exception.article_delete_persistence

  -- ArticleDeleteService.delete
  unfoldable pub delete : Text → Text → M (World orm.Env) (Unit {0})
  unfolding is_expected_delete_error
  delete slug username =
      try_catch (orm.transaction (delete_in_transaction slug username))
        (λ e. throw (delete_error e))
