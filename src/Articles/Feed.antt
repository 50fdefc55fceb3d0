-- ===== src/Articles/Feed.antt =====
-- ArticleListService (articles/article.service.ts): the list of articles and the feed of a viewer.
pub mod Laws
use nest_js_tutorial.Base.{ℕ, Bool, true, false, Option, none, some, Text, List, [], ◌∷◌}
use nest_js_tutorial.Runtime.{Exception, M, pure, throw, ◌>>=◌, try_catch}
use nest_js_tutorial.Database.{User, Article, Orm, World}
use nest_js_tutorial.Database.Statements.{user_by_username, require}
use nest_js_tutorial.Serializers.{ArticleList, serialize_article_list}
use nest_js_tutorial.Articles.List
use nest_js_tutorial.Articles.List.{ArticleListQueryCriteria}
use nest_js_tutorial.Articles.Hydrator.{hydrate}

abbrev pub user_id : Option User → Option Text
user_id none = none
user_id (some u) = some u.id

-- `if (followedAuthorsOnly) { if (!viewer) throw …; queryCriteria = { ...criteria, … } }`
abbrev pub with_followed :
    {S : Type 0} → ArticleListQueryCriteria → Option User → Bool → M S ArticleListQueryCriteria
with_followed criteria viewer false = pure criteria
with_followed criteria none true = throw Exception.article_list_viewer_not_found
with_followed criteria (some viewer) true =
    pure (record criteria { followed_by_user_id = some viewer.id })

-- The errors that `load` throws on; every other one is a failure to load.
abbrev pub list_error : Exception → Exception
list_error Exception.article_list_query_validation = Exception.article_list_query_validation
list_error Exception.article_list_viewer_not_found = Exception.article_list_viewer_not_found
list_error e = Exception.article_list_persistence

module _ (orm : Orm) where
  -- `viewerUsername === undefined ? undefined : findOne(…)`, and the error for a viewer who is not
  -- there.
  unfoldable pub find_list_viewer : Option Text → M (World orm.Env) (Option User)
  find_list_viewer none = pure none
  find_list_viewer (some name) = do
    viewer ← require orm (user_by_username name) Exception.article_list_viewer_not_found
    pure (some viewer)

  -- What follows the query: an empty page is not hydrated.
  unfoldable pub hydrate_result :
      Option Text → List (Article × User) → ℕ → M (World orm.Env) ArticleList
  hydrate_result viewer_id [] articles_count = pure (serialize_article_list [] articles_count)
  hydrate_result viewer_id (row ∷ rows) articles_count = do
    articles ← hydrate orm (row ∷ rows) viewer_id
    pure (serialize_article_list articles articles_count)

  unfoldable pub load_body :
      ArticleListQueryCriteria → Option Text → Bool → M (World orm.Env) ArticleList
  unfolding find_list_viewer hydrate_result
  load_body criteria viewer_username followed_authors_only = do
    viewer ← find_list_viewer viewer_username
    query_criteria ← with_followed criteria viewer followed_authors_only
    result ← List.list orm query_criteria
    hydrate_result (user_id viewer) result.articles result.articles_count

  -- `load`
  unfoldable pub load :
      ArticleListQueryCriteria → Option Text → Bool → M (World orm.Env) ArticleList
  unfolding load_body
  load criteria viewer_username followed_authors_only =
      try_catch (load_body criteria viewer_username followed_authors_only)
        (λ e. throw (list_error e))

  -- ArticleListService.list and feed
  unfoldable pub list : ArticleListQueryCriteria → Option Text → M (World orm.Env) ArticleList
  unfolding load
  list criteria viewer_username = load criteria viewer_username false

  unfoldable pub feed : ArticleListQueryCriteria → Text → M (World orm.Env) ArticleList
  unfolding load
  feed criteria viewer_username = load criteria (some viewer_username) true
