-- ===== src/Articles/Favorite.antt =====
-- ArticleFavoriteService (articles/article.service.ts).
pub mod Laws
use nest_js_tutorial.Base.{
  ℕ, Bool, true, false, not, ◌&&◌, Text, ◌==◌, List, [], ◌∷◌, ◌++◌, any, select, some,
  if◌then◌else◌,
}
use nest_js_tutorial.Runtime.{Exception, M, pure, ◌>>=◌, ◌>>◌}
use nest_js_tutorial.Database.{Db, ArticleFavorite, Orm, World, command}
use nest_js_tutorial.Database.Statements.{user_by_username, article_by_slug, require}
use nest_js_tutorial.Serializers.{ArticleDetail}
use nest_js_tutorial.Articles.Read.{get_by_slug}

abbrev pub is_favorite : Text → Text → ArticleFavorite → Bool
is_favorite article_id user_id f = f.article_id == article_id && f.user_id == user_id

-- `insert().values({ articleId, userId }).orIgnore()`
unfoldable pub add_favorite : Text → Text → Db → Db
add_favorite article_id user_id d =
    if any (is_favorite article_id user_id) d.article_favorites then d else record d {
      article_favorites =
          d.article_favorites ++ record { article_id = article_id; user_id = user_id } ∷ [];
    }

-- `delete({ articleId, userId })`
unfoldable pub remove_favorite : Text → Text → Db → Db
remove_favorite article_id user_id d = record d {
  article_favorites = select (λ f. not (is_favorite article_id user_id f)) d.article_favorites;
}

module _ (orm : Orm) where
  -- The callback that `create` and `delete` have in common, but for one statement.
  unfoldable pub change_favorite :
      (Text → Text → Db → Db) → Text → Text → M (World orm.Env) ArticleDetail
  unfolding get_by_slug
  change_favorite change slug username = do
    viewer ← require orm (user_by_username username) Exception.article_favorite_user_not_found
    article ← require orm (article_by_slug slug) Exception.article_favorite_article_not_found
    orm.execute (command (change article.id viewer.id))
    get_by_slug orm slug (some username)

  -- ArticleFavoriteService.create
  unfoldable pub create : Text → Text → M (World orm.Env) ArticleDetail
  unfolding change_favorite
  create slug username = orm.transaction (change_favorite add_favorite slug username)

  -- ArticleFavoriteService.delete
  unfoldable pub delete : Text → Text → M (World orm.Env) ArticleDetail
  unfolding change_favorite
  delete slug username = orm.transaction (change_favorite remove_favorite slug username)
