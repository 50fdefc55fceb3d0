-- ===== src/Api/Reads.antt =====
-- The GET routes of articles, comments and profiles change no row.
use nest_js_tutorial.Base.{ℕ, Bool, true, false, Option, none, some, Text, List, [], ◌∷◌}
use nest_js_tutorial.Runtime.{Exception}
use nest_js_tutorial.Database.{Db, User, Article, Comment, Orm}
use nest_js_tutorial.Database.ReadOnly.{IsReadOnly, reads, read_bind, read_try, read_transaction}
use nest_js_tutorial.Articles.Read.{find_viewer, find_for_viewer, load_context, get_by_slug}
use nest_js_tutorial.Articles.List
use nest_js_tutorial.Articles.List.{
  ArticleListQueryCriteria, matching_rows, page_of, validate_criteria,
}
use nest_js_tutorial.Articles.Hydrator.{
  load_tags, load_favorites, load_following_authors, hydrate, or_invalid_count,
}
use nest_js_tutorial.Articles.Feed
use nest_js_tutorial.Articles.Feed.{
  find_list_viewer, with_followed, hydrate_result, load_body, load, list_error, user_id,
}
use nest_js_tutorial.Articles.Requests.{ArticlePagination}
use nest_js_tutorial.Articles.Controller.{
  ArticleListQuery, list_criteria, feed_criteria, handle_article_list_error, list_route, feed_route,
  get_by_slug_route,
}
use nest_js_tutorial.Comments
use nest_js_tutorial.Comments.{
  rethrow_comment_error, show_comments, comments_of, load_followed_authors, author_ids,
}
use nest_js_tutorial.Profiles.{get_profile}

module _ (orm : Orm) where
  read_find_for_viewer :
      (viewer : Option User) (f : User → Db → Bool) → IsReadOnly (find_for_viewer orm viewer f)
  unfolding find_for_viewer
  read_find_for_viewer none f = search reads
  read_find_for_viewer (some u) f = search reads

  read_find_viewer : (name : Option Text) (e : Exception) → IsReadOnly (find_viewer orm name e)
  unfolding find_viewer
  read_find_viewer none e = search reads
  read_find_viewer (some []) e = search reads
  read_find_viewer (some (c ∷ cs)) e = search reads

  read_load_context :
      (article : Article) (viewer : Option User) → IsReadOnly (load_context orm article viewer)
  unfolding load_context
  read_load_context article viewer = search (reads, read_find_for_viewer)

  read_get_by_slug : (slug : Text) (name : Option Text) → IsReadOnly (get_by_slug orm slug name)
  unfolding get_by_slug
  read_get_by_slug slug name = search (reads, read_find_viewer, read_load_context)

  read_load_page :
      (criteria : ArticleListQueryCriteria) (offset limit : ℕ)
      → IsReadOnly (List.load_page orm criteria offset limit)
  unfolding List.load_page
  read_load_page criteria offset limit = search reads

  read_list_valid :
      (criteria : ArticleListQueryCriteria) (o : Option (ℕ × ℕ))
      → IsReadOnly (List.list_valid orm criteria o)
  read_list_valid criteria none = search reads
  read_list_valid criteria (some (offset, limit)) =
      read_try _ (λ e. Exception.article_list_query_persistence)
        (read_load_page criteria offset limit)

  read_list : (criteria : ArticleListQueryCriteria) → IsReadOnly (List.list orm criteria)
  unfolding List.list
  read_list criteria = read_list_valid criteria (validate_criteria criteria)

  read_invalid_count : {A : Type 0} (o : Option A) → IsReadOnly {Env = orm.Env} (or_invalid_count o)
  read_invalid_count none = search reads
  read_invalid_count (some a) = search reads

  read_load_tags : (ids : List Text) → IsReadOnly (load_tags orm ids)
  unfolding load_tags
  read_load_tags ids = search reads

  read_load_favorites :
      (ids : List Text) (viewer_id : Option Text) → IsReadOnly (load_favorites orm ids viewer_id)
  unfolding load_favorites
  read_load_favorites ids viewer_id = search (reads, read_invalid_count)

  read_following :
      (viewer_id : Option Text) (ids : List Text)
      → IsReadOnly (load_following_authors orm viewer_id ids)
  unfolding load_following_authors
  read_following none ids = search reads
  read_following (some viewer_id) ids = search reads

  read_hydrate :
      (rows : List (Article × User)) (viewer_id : Option Text)
      → IsReadOnly (hydrate orm rows viewer_id)
  unfolding hydrate
  read_hydrate [] viewer_id = search reads
  read_hydrate (row ∷ rows) viewer_id =
      search (reads, read_load_tags, read_load_favorites, read_following)

  read_hydrate_result :
      (viewer_id : Option Text) (rows : List (Article × User)) (n : ℕ)
      → IsReadOnly (hydrate_result orm viewer_id rows n)
  unfolding hydrate_result
  read_hydrate_result viewer_id [] n = search reads
  read_hydrate_result viewer_id (row ∷ rows) n = search (reads, read_hydrate)

  read_find_list_viewer : (name : Option Text) → IsReadOnly (find_list_viewer orm name)
  unfolding find_list_viewer
  read_find_list_viewer none = search reads
  read_find_list_viewer (some name) = search reads

  read_with_followed :
      (criteria : ArticleListQueryCriteria) (viewer : Option User) (b : Bool)
      → IsReadOnly {Env = orm.Env} (with_followed criteria viewer b)
  read_with_followed criteria viewer false = search reads
  read_with_followed criteria none true = search reads
  read_with_followed criteria (some viewer) true = search reads

  read_load_body :
      (criteria : ArticleListQueryCriteria) (name : Option Text) (b : Bool)
      → IsReadOnly (load_body orm criteria name b)
  unfolding load_body
  read_load_body criteria name b =
      search (reads, read_find_list_viewer, read_with_followed, read_list, read_hydrate_result)

  read_load :
      (criteria : ArticleListQueryCriteria) (name : Option Text) (b : Bool)
      → IsReadOnly (load orm criteria name b)
  unfolding load
  read_load criteria name b = read_try _ list_error (read_load_body criteria name b)

  read_show_comments :
      (name : Option Text) (comments : List (Comment × User))
      → IsReadOnly (show_comments orm name comments)
  unfolding show_comments
  read_show_comments none comments = search reads
  read_show_comments (some []) comments = search reads
  read_show_comments (some (c ∷ cs)) [] = search reads
  read_show_comments (some (c ∷ cs)) (x ∷ xs) = search reads

  read_comments : (slug : Text) (name : Option Text) → IsReadOnly (Comments.list orm slug name)
  unfolding Comments.list Comments.list_in_transaction
  read_comments slug name = read_try _ rethrow_comment_error (
      read_bind _ _ (read_transaction orm _ (search reads))
        (λ comments. read_show_comments name comments))

  -- However they end, and whatever the driver does, the lists, the feed, the requests for one article,
  -- for its comments and for a profile change no row.
  pub reads_lem :
      (request : ArticleListQuery) (page : ArticlePagination) (slug name : Text)
      (viewer : Option Text) (subject : Text)
      → IsReadOnly (list_route orm request viewer)
        × IsReadOnly (feed_route orm page subject)
        × IsReadOnly (get_by_slug_route orm slug viewer)
        × IsReadOnly (Comments.list orm slug viewer)
        × IsReadOnly (get_profile orm name)
  unfolding list_route feed_route get_by_slug_route Feed.list Feed.feed get_profile
  reads_lem request page slug name viewer subject = (
    read_try _ handle_article_list_error (read_load (list_criteria request) viewer false),
    read_try _ handle_article_list_error (read_load (feed_criteria page) (some subject) true),
    read_get_by_slug slug viewer,
    read_comments slug viewer,
    search reads,
  )
