-- ===== src/Articles/Read.antt =====
-- ArticleReadService.getBySlug (articles/article.service.ts).
pub mod Laws
use nest_js_tutorial.Base.{
  ℕ, Bool, true, false, not, ◌&&◌, Option, none, some, Text, ◌==◌, List, [], ◌∷◌, any, find, count,
  if◌then◌else◌,
}
use nest_js_tutorial.Runtime.{Exception, M, pure, throw, ◌>>=◌}
use nest_js_tutorial.Database.{Db, User, Article, ArticleFavorite, UserFollow, Orm, World, query}
use nest_js_tutorial.Database.Statements.{user_by_username, article_by_slug, require}
use nest_js_tutorial.Serializers.{
  ArticleDetail, ArticleSerializationContext, serialize_article_detail,
}
use nest_js_tutorial.Articles.Tags.{ordered_tag_names}

-- `innerJoinAndSelect('article.author')` in the lookup by slug.
abbrev pub with_author : Option Article → Db → Option (Article × User)
with_author none d = none
with_author (some a) d = elim (find (λ u. User.id u == a.author_id) d.users) [
  | none ↦ none
  | some u ↦ some (a, u)
]

unfoldable pub article_and_author : Text → Db → Option (Article × User)
unfolding article_by_slug
article_and_author slug d = with_author (article_by_slug slug d) d

unfoldable pub favorites_count : Text → Db → ℕ
favorites_count article_id d =
    count (λ f. ArticleFavorite.article_id f == article_id) d.article_favorites

unfoldable pub has_favorite : Text → Text → Db → Bool
has_favorite article_id user_id d =
    any (λ f. ArticleFavorite.article_id f == article_id && ArticleFavorite.user_id f == user_id)
      d.article_favorites

unfoldable pub has_follow : Text → Text → Db → Bool
has_follow follower_id following_id d =
    any (λ f. UserFollow.follower_id f == follower_id && UserFollow.following_id f == following_id)
      d.user_follows

-- What an anonymous request, or a query of the viewer, finds.
abbrev pub for_viewer : Option User → (User → Db → Bool) → Db → Bool
for_viewer none f d = false
for_viewer (some viewer) f d = f viewer d

module _ (orm : Orm) where
  -- `viewerUsername ? findOneBy(…) : null`, and the error if the user is not there. An empty username
  -- is no viewer.
  unfoldable pub find_viewer : Option Text → Exception → M (World orm.Env) (Option User)
  find_viewer none e = pure none
  find_viewer (some []) e = pure none
  find_viewer (some (c ∷ cs)) e = do
    viewer ← require orm (user_by_username (c ∷ cs)) e
    pure (some viewer)

  -- `viewer ? await findOneBy(…) : null`, as the Boolean that is made of it.
  unfoldable pub find_for_viewer : Option User → (User → Db → Bool) → M (World orm.Env) Bool
  find_for_viewer none f = pure false
  find_for_viewer (some viewer) f = orm.execute (query (f viewer))

  -- The tags, the favourites and the follow of the article. Without a manager these four queries run at
  -- the same time; they only read.
  unfoldable pub load_context :
      Article → Option User → M (World orm.Env) ArticleSerializationContext
  unfolding find_for_viewer
  load_context article viewer = do
    tags ← orm.execute (query (ordered_tag_names article.id))
    favorites ← orm.execute (query (favorites_count article.id))
    favorited ← find_for_viewer viewer (λ u. has_favorite article.id (User.id u))
    following ← find_for_viewer viewer (λ u. has_follow (User.id u) article.author_id)
    pure (record {
      tags = tags;
      favorited = favorited;
      favorites_count = favorites;
      author_following = following;
    })

  unfoldable pub get_by_slug : Text → Option Text → M (World orm.Env) ArticleDetail
  unfolding find_viewer load_context
  get_by_slug slug viewer_username = do
    article ← require orm (article_and_author slug) Exception.article_not_found
    viewer ← find_viewer viewer_username Exception.article_viewer_not_found
    context ← load_context article.0 viewer
    pure (serialize_article_detail article.0 article.1 context)
