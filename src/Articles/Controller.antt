-- ===== src/Articles/Controller.antt =====
-- ArticlesController (articles/articles.controller.ts): the routes and the errors they answer with. A
-- subject is that of the token that the guard has put on the request.
pub mod Laws
use nest_js_tutorial.Base.{ℕ, Bool, Option, none, some, Text, codes, pos}
use nest_js_tutorial.Runtime.{Exception, M, throw, try_catch, errors_body}
use nest_js_tutorial.Database.{Orm, World}
use nest_js_tutorial.Serializers.{ArticleDetail, ArticleList}
use nest_js_tutorial.Articles.Slug.{Unicode}
use nest_js_tutorial.Articles.Read.{get_by_slug}
use nest_js_tutorial.Articles.Create
use nest_js_tutorial.Articles.Create.{NewArticleDto, Generated}
use nest_js_tutorial.Articles.Update
use nest_js_tutorial.Articles.Update.{ArticleUpdateDto}
use nest_js_tutorial.Articles.Delete
use nest_js_tutorial.Articles.Favorite
use nest_js_tutorial.Articles.Feed
use nest_js_tutorial.Articles.Requests.{ArticlePagination}
use nest_js_tutorial.Articles.List.{ArticleListQueryCriteria}

-- ArticleListQueryDto, with its pagination.
pub record ArticleListQuery : Type 0 where
  pub tag : Option Text
  pub author : Option Text
  pub favorited : Option Text
  pub page : ArticlePagination

-- The criteria of the route of the list, and of that of the feed.
abbrev pub list_criteria : ArticleListQuery → ArticleListQueryCriteria
list_criteria request = record {
  tag = request.tag;
  author_username = request.author;
  favorited_username = request.favorited;
  followed_by_user_id = none;
  offset = pos request.page.offset;
  limit = pos request.page.limit;
}

abbrev pub feed_criteria : ArticlePagination → ArticleListQueryCriteria
feed_criteria page = record {
  tag = none;
  author_username = none;
  favorited_username = none;
  followed_by_user_id = none;
  offset = pos page.offset;
  limit = pos page.limit;
}

abbrev invalid_token : Exception
invalid_token = Exception.http 401 (errors_body (codes "token") (codes "is invalid"))

abbrev request_failed : Exception
request_failed = Exception.http 500 (errors_body (codes "body") (codes "request failed"))

-- handleArticleListError
unfoldable pub handle_article_list_error : Exception → Exception
handle_article_list_error Exception.article_list_viewer_not_found = invalid_token
handle_article_list_error Exception.article_list_query_validation =
    Exception.http 422 (errors_body (codes "query") (codes "is invalid"))
handle_article_list_error Exception.article_list_persistence = request_failed
handle_article_list_error e = e

-- The `catch` block of `create`.
unfoldable pub create_route_error : Exception → Exception
create_route_error Exception.article_author_not_found = invalid_token
create_route_error Exception.article_slug_conflict =
    Exception.http 409 (errors_body (codes "slug") (codes "has already been taken"))
create_route_error Exception.article_create_persistence = request_failed
create_route_error e = e

-- The `catch` block of `delete`.
unfoldable pub delete_route_error : Exception → Exception
delete_route_error Exception.article_delete_user_not_found = invalid_token
delete_route_error Exception.article_delete_article_not_found =
    Exception.http 404 (errors_body (codes "article") (codes "not found"))
delete_route_error Exception.article_delete_forbidden =
    Exception.http 403 (errors_body (codes "article") (codes "forbidden"))
delete_route_error e = request_failed

module _ (orm : Orm) where
  unfoldable pub list_route : ArticleListQuery → Option Text → M (World orm.Env) ArticleList
  unfolding handle_article_list_error
  list_route request subject =
      try_catch (Feed.list orm (list_criteria request) subject)
        (λ e. throw (handle_article_list_error e))

  unfoldable pub feed_route : ArticlePagination → Text → M (World orm.Env) ArticleList
  unfolding handle_article_list_error
  feed_route page subject =
      try_catch (Feed.feed orm (feed_criteria page) subject)
        (λ e. throw (handle_article_list_error e))

  unfoldable pub get_by_slug_route : Text → Option Text → M (World orm.Env) ArticleDetail
  get_by_slug_route slug subject = get_by_slug orm slug subject

  unfoldable pub create_route :
      Unicode → Generated → NewArticleDto → Text → M (World orm.Env) ArticleDetail
  unfolding create_route_error
  create_route unicode new article subject =
      try_catch (Create.create orm unicode new subject article) (λ e. throw (create_route_error e))

  unfoldable pub update_route :
      ℕ → (Text → Text) → Text → ArticleUpdateDto → Text → M (World orm.Env) ArticleDetail
  update_route now new_id slug article subject = Update.update orm now new_id slug subject article

  unfoldable pub delete_route : Text → Text → M (World orm.Env) (Unit {0})
  unfolding delete_route_error
  delete_route slug subject =
      try_catch (Delete.delete orm slug subject) (λ e. throw (delete_route_error e))

  unfoldable pub create_favorite_route : Text → Text → M (World orm.Env) ArticleDetail
  create_favorite_route slug subject = Favorite.create orm slug subject

  unfoldable pub delete_favorite_route : Text → Text → M (World orm.Env) ArticleDetail
  delete_favorite_route slug subject = Favorite.delete orm slug subject
