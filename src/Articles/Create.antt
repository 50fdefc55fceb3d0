-- ===== src/Articles/Create.antt =====
-- ArticleCreateService (articles/article.service.ts).
pub mod Laws
use nest_js_tutorial.Base.{
  ℕ, Bool, true, false, ◌&&◌, Option, none, some, Text, codes, ◌==◌, List, [], ◌∷◌, ◌++◌, any,
  same_option, if◌then◌else◌,
}
use nest_js_tutorial.Runtime.{
  Exception, DriverFields, returned, thrown, M, pure, throw, ◌>>=◌, try_catch,
}
use nest_js_tutorial.Database.{Db, Article, Orm, World, Statement}
use nest_js_tutorial.Database.Statements.{user_by_username, require, unique_violation}
use nest_js_tutorial.Database.Transactions.{guarded}
use nest_js_tutorial.Serializers.{ArticleDetail, serialize_article_detail}
use nest_js_tutorial.Articles.Slug.{Unicode, create_article_slug}
use nest_js_tutorial.Articles.Tags.{persist_article_tags}

-- NewArticleDto (common/dto/article.dto.ts)
pub record NewArticleDto : Type 0 where
  pub title : Text
  pub description : Text
  pub body : Text
  pub tag_list : Option (List Text)

-- What one request is given from outside: the UUID of the slug, and what the database generates, the
-- id and the time of the article and the ids of new tags.
pub record Generated : Type 0 where
  pub slug_id : Text
  pub article_id : Text
  pub now : ℕ
  pub tag_id : Text → Text

-- `save` of a new article, under the constraint uq_articles_slug.
unfoldable pub insert_article : Article → Statement Article
insert_article article d =
    if any (λ a. Article.slug a == article.slug) d.articles
    then (thrown (unique_violation (codes "uq_articles_slug")), d)
    else (returned article, record d { articles = d.articles ++ article ∷ [] })

abbrev violates_slug : DriverFields → Bool
violates_slug fields =
    same_option fields.code (some (codes "23505"))
    && same_option fields.constraint (some (codes "uq_articles_slug"))

-- isSlugConflict. Only the driver's errors carry a code.
unfoldable pub is_slug_conflict : Exception → Bool
is_slug_conflict (Exception.driver (some nested) own) = violates_slug nested
is_slug_conflict (Exception.driver none own) = violates_slug own
is_slug_conflict _ = false

-- The `catch` block of `create`.
unfoldable pub create_error : Exception → Exception
unfolding is_slug_conflict
create_error Exception.article_author_not_found = Exception.article_author_not_found
create_error e =
    if is_slug_conflict e
    then Exception.article_slug_conflict
    else Exception.article_create_persistence

abbrev or_no_tags : Option (List Text) → List Text
or_no_tags none = []
or_no_tags (some names) = names

module _ (orm : Orm) (unicode : Unicode) (new : Generated) where
  unfoldable pub create_in_transaction : Text → NewArticleDto → M (World orm.Env) ArticleDetail
  unfolding persist_article_tags
  create_in_transaction username request = do
    author ← require orm (user_by_username username) Exception.article_author_not_found
    article ← orm.execute (
        insert_article (record {
          id = new.article_id;
          slug = create_article_slug unicode request.title new.slug_id;
          title = request.title;
          description = request.description;
          body = request.body;
          author_id = author.id;
          created_at = new.now;
          updated_at = new.now;
        }))
    tags ← persist_article_tags orm new.tag_id article.id (or_no_tags request.tag_list)
    pure (
        serialize_article_detail article author (record {
          tags = tags;
          favorited = false;
          favorites_count = 0;
          author_following = false;
        }))

  -- ArticleCreateService.create
  unfoldable pub create : Text → NewArticleDto → M (World orm.Env) ArticleDetail
  unfolding create_in_transaction create_error
  create username request = guarded orm (create_in_transaction username request) create_error
