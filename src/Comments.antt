-- ===== src/Comments.antt =====
-- CommentService (comments/comment.service.ts).
pub mod Order
pub mod Laws
pub mod Following
pub mod Listing
pub mod Controller
use nest_js_tutorial.Base.{
  ℕ, ◌≡◌, Bool, true, false, not, ◌&&◌, ◌||◌, Option, none, some, Text, codes, ◌==◌, eqb, ltb, leb,
  List, [], ◌∷◌, ◌++◌, map, find, select, count, any, if◌then◌else◌, ℤ, pos, negsuc,
  is_safe_integer, trim,
}
use nest_js_tutorial.Runtime.{
  Exception, Outcome, returned, thrown, M, pure, throw, throw_if, ◌>>=◌, ◌>>◌, try_catch, recover,
  as_http, Value, errors_body,
}
use nest_js_tutorial.Database.{
  Db, User, Article, Comment, UserFollow, Orm, World, Statement, query, command,
}
use nest_js_tutorial.Database.Statements.{user_by_username, article_by_slug, require}
use nest_js_tutorial.Database.Transactions.{guarded}
use nest_js_tutorial.Serializers.{SerializedComment, serialize_comment}
use nest_js_tutorial.Articles.Tags.{contains, unique_from}

-- rethrowCommentError: an HttpException is thrown again, of which CommentPersistenceError is one.
abbrev pub rethrow_http : Option (ℕ × Value) → Exception → Exception
rethrow_http none e = Exception.comment_persistence
rethrow_http (some response) e = e

unfoldable pub rethrow_comment_error : Exception → Exception
rethrow_comment_error e = rethrow_http (as_http e) e

abbrev pub comment_not_found : Exception
comment_not_found = Exception.http 404 (errors_body (codes "comment") (codes "not found"))

abbrev pub comment_forbidden : Exception
comment_forbidden = Exception.http 403 (errors_body (codes "comment") (codes "forbidden"))

-- `save` of a new comment.
unfoldable pub insert_comment : Comment → Statement Comment
insert_comment comment d = (returned comment, record d { comments = d.comments ++ comment ∷ [] })

-- `innerJoin('comment.author')`
unfoldable pub with_authors : List User → List Comment → List (Comment × User)
with_authors users [] = []
with_authors users (c ∷ cs) = elim (find (λ u. User.id u == c.author_id) users) [
  | none ↦ with_authors users cs
  | some u ↦ (c, u) ∷ with_authors users cs
]

-- `orderBy('comment.createdAt', 'ASC').addOrderBy('comment.id', 'ASC')`
abbrev pub is_before : Comment → Comment → Bool
is_before c d = ltb c.created_at d.created_at || (eqb c.created_at d.created_at && leb c.id d.id)

unfoldable pub insert_by_age : Comment × User → List (Comment × User) → List (Comment × User)
insert_by_age c [] = c ∷ []
insert_by_age c (d ∷ ds) = if is_before c.0 d.0 then c ∷ d ∷ ds else d ∷ insert_by_age c ds

unfoldable pub order_by_age : List (Comment × User) → List (Comment × User)
order_by_age [] = []
order_by_age (c ∷ cs) = insert_by_age c (order_by_age cs)

-- The query of `list`.
unfoldable pub comments_of : Text → Db → List (Comment × User)
unfolding order_by_age insert_by_age with_authors
comments_of article_id d =
    order_by_age
      (with_authors d.users (select (λ c. Comment.article_id c == article_id) d.comments))

abbrev pub is_named : Text → Option User → Bool
is_named username none = false
is_named username (some u) = u.username == username

-- `[...new Set(comments.map((comment) => comment.author.id))]`
unfoldable pub author_ids : List (Comment × User) → List Text
unfolding unique_from
author_ids comments = unique_from [] (map (λ x. User.id (x.1)) comments)

-- loadFollowedAuthors: the ids of the rows, which become a set.
unfoldable pub load_followed_authors : Text → List Text → Db → List Text
load_followed_authors viewer_username ids d = map UserFollow.following_id (
    select
      (λ f.
        is_named viewer_username (find (λ u. User.id u == UserFollow.follower_id f) d.users)
        && contains ids (UserFollow.following_id f))
      d.user_follows)

-- `comments.map(…)`, with `followedAuthorIds.has`
unfoldable pub serialize_comments : (Text → Bool) → List (Comment × User) → List SerializedComment
serialize_comments following [] = []
serialize_comments following ((c, u) ∷ cs) =
    serialize_comment c u (following u.id) ∷ serialize_comments following cs

-- `delete({ articleId, authorId, id })`, with the number of rows that it deleted.
abbrev pub is_comment : Text → Text → ℕ → Comment → Bool
is_comment article_id author_id id c =
    c.article_id == article_id && (c.author_id == author_id && eqb c.id id)

unfoldable pub delete_comment : Text → Text → ℕ → Statement ℕ
delete_comment article_id author_id id d = (
  returned (count (is_comment article_id author_id id) d.comments),
  record d { comments = select (λ c. not (is_comment article_id author_id id c)) d.comments },
)

-- `findOne({ where: { articleId, id } })`
unfoldable pub comment_by_id : Text → ℕ → Db → Option Comment
comment_by_id article_id id d =
    find (λ c. Comment.article_id c == article_id && eqb (Comment.id c) id) d.comments

-- The id of a comment, if the column can hold it.
unfoldable pub stored_id : ℤ → Option ℕ
stored_id (pos n) =
    if not (is_safe_integer (pos n)) || ltb n 1 || ltb 2147483647 n then none else some n
stored_id (negsuc n) = none

module _ (orm : Orm) where
  -- The database gives the id and the time of a comment.
  unfoldable pub create_in_transaction :
      ℕ → ℕ → Text → Text → Text → M (World orm.Env) SerializedComment
  create_in_transaction new_id now slug username body = do
    user ← require orm (user_by_username username) Exception.comment_user_not_found
    article ← require orm (article_by_slug slug) Exception.comment_article_not_found
    comment ← orm.execute (
        insert_comment (record {
          id = new_id;
          article_id = article.id;
          author_id = user.id;
          body = trim body;
          created_at = now;
          updated_at = now;
        }))
    pure (serialize_comment comment user false)

  -- CommentService.create
  unfoldable pub create : ℕ → ℕ → Text → Text → Text → M (World orm.Env) SerializedComment
  unfolding create_in_transaction rethrow_comment_error
  create new_id now slug username body =
      guarded orm (create_in_transaction new_id now slug username body) rethrow_comment_error

  -- The callback of `list`.
  unfoldable pub list_in_transaction : Text → M (World orm.Env) (List (Comment × User))
  list_in_transaction slug = do
    article ← require orm (article_by_slug slug) Exception.comment_article_not_found
    orm.execute (query (comments_of article.id))

  -- What `list` makes of the comments, for a viewer if there is one. An empty username is no viewer.
  unfoldable pub show_comments :
      Option Text → List (Comment × User) → M (World orm.Env) (List SerializedComment)
  unfolding serialize_comments load_followed_authors author_ids
  show_comments none comments = pure (serialize_comments (λ id. false) comments)
  show_comments (some []) comments = pure (serialize_comments (λ id. false) comments)
  show_comments (some (c ∷ cs)) [] = pure []
  show_comments (some (c ∷ cs)) (x ∷ xs) = do
    followed ← orm.execute (query (load_followed_authors (c ∷ cs) (author_ids (x ∷ xs))))
    pure (serialize_comments (contains followed) (x ∷ xs))

  -- CommentService.list
  unfoldable pub list : Text → Option Text → M (World orm.Env) (List SerializedComment)
  unfolding list_in_transaction show_comments rethrow_comment_error
  list slug viewer_username =
      try_catch (orm.transaction (list_in_transaction slug) >>= show_comments viewer_username)
        (λ e. throw (rethrow_comment_error e))

  -- The part of `delete` after the test of the id.
  unfoldable pub delete_stored : Article → User → Option ℕ → M (World orm.Env) (Unit {0})
  delete_stored article user none = throw comment_not_found
  delete_stored article user (some id) = do
    comment ← require orm (comment_by_id article.id id) comment_not_found
    throw_if (not (comment.author_id == user.id)) comment_forbidden
    affected ← orm.execute (delete_comment article.id user.id id)
    throw_if (not (eqb affected 1)) Exception.comment_persistence

  unfoldable pub delete_in_transaction : Text → ℤ → Text → M (World orm.Env) (Unit {0})
  unfolding delete_stored stored_id
  delete_in_transaction slug comment_id username = do
    article ← require orm (article_by_slug slug) Exception.comment_article_not_found
    user ← require orm (user_by_username username) Exception.comment_user_not_found
    delete_stored article user (stored_id comment_id)

  -- CommentService.delete
  unfoldable pub delete : Text → ℤ → Text → M (World orm.Env) (Unit {0})
  unfolding delete_in_transaction rethrow_comment_error
  delete slug comment_id username =
      guarded orm (delete_in_transaction slug comment_id username) rethrow_comment_error
