-- ===== src/Articles/Hydrator.antt =====
-- ArticleListHydrator (articles/article-list-hydrator.ts): the tags, favourites and follows of the
-- articles on a page, in three queries for the whole page.
pub mod Groups
pub mod Counts
pub mod Laws
use nest_js_tutorial.Base.{
  ℕ, Bool, true, false, ◌&&◌, Option, none, some, Text, codes, ◌==◌, ltb, leb, List, [], ◌∷◌, ◌++◌,
  map, find, select, count, pos, is_safe_integer, is_decimal, digits_after, decimal, if◌then◌else◌,
}
use nest_js_tutorial.Runtime.{Exception, M, pure, throw, ◌>>=◌}
use nest_js_tutorial.Database.{
  Db, User, Article, Tag, ArticleTag, ArticleFavorite, UserFollow, Orm, World, query,
}
use nest_js_tutorial.Serializers.{ArticleSerializationContext}
use nest_js_tutorial.Articles.Tags.{contains, unique_article_tag_names}
use nest_js_tutorial.Articles.List.{text_leb}

-- A `Map` from ids: `get` and `set`.
unfoldable pub get {ℓ} : {A : Type ℓ} → Text → List (Text × A) → Option A
get id [] = none
get id ((key, value) ∷ entries) = if key == id then some value else get id entries

unfoldable pub set {ℓ} : {A : Type ℓ} → Text → A → List (Text × A) → List (Text × A)
set id value [] = (id, value) ∷ []
set id value ((key, old) ∷ entries) =
    if key == id then (key, value) ∷ entries else (key, old) ∷ set id value entries

-- `value ?? fallback`
abbrev pub or_else {ℓ} : {A : Type ℓ} → Option A → A → A
or_else none fallback = fallback
or_else (some value) fallback = value

-- `orderBy('articleTag.articleId').addOrderBy('articleTag.position')`
unfoldable pub link_leb : ArticleTag → ArticleTag → Bool
link_leb l m =
    if l.article_id == m.article_id
    then leb l.position m.position
    else text_leb l.article_id m.article_id

unfoldable pub insert_link : ArticleTag → List ArticleTag → List ArticleTag
insert_link l [] = l ∷ []
insert_link l (m ∷ ms) = if link_leb l m then l ∷ m ∷ ms else m ∷ insert_link l ms

unfoldable pub order_links : List ArticleTag → List ArticleTag
order_links [] = []
order_links (l ∷ ls) = insert_link l (order_links ls)

-- The join with the tags, and the two selected columns.
unfoldable pub tag_rows_of : List Tag → List ArticleTag → List (Text × Text)
tag_rows_of tags [] = []
tag_rows_of tags (l ∷ ls) = elim (find (λ t. Tag.id t == l.tag_id) tags) [
  | none ↦ tag_rows_of tags ls
  | some t ↦ (l.article_id, t.name) ∷ tag_rows_of tags ls
]

unfoldable pub tag_rows : List Text → Db → List (Text × Text)
unfolding tag_rows_of order_links insert_link link_leb text_leb
tag_rows ids d =
    tag_rows_of d.tags
      (order_links (select (λ l. contains ids (ArticleTag.article_id l)) d.article_tags))

-- The loop that fills the map of names.
unfoldable pub group_names : List (Text × List Text) → List (Text × Text) → List (Text × List Text)
unfolding get set
group_names tags [] = tags
group_names tags ((id, name) ∷ rows) =
    group_names (set id (or_else (get id tags) [] ++ name ∷ []) tags) rows

-- A COUNT(*) as the driver hands it over: a text, or a number.
pub data RawCount : Type 0 where
  text : Text → RawCount
  number : ℕ → RawCount

abbrev pub safe_count : ℕ → Option ℕ
safe_count n = if is_safe_integer (pos n) then some n else none

-- parseFavoritesCount; `none` is the error.
unfoldable pub parse_favorites_count : RawCount → Option ℕ
parse_favorites_count (RawCount.text s) =
    if is_decimal s then safe_count (digits_after 0 s) else none
parse_favorites_count (RawCount.number n) = safe_count n

pub record FavoritesRow : Type 0 where
  pub article_id : Text
  pub favorites_count : RawCount
  pub favorited : Bool

-- What the map has for an article.
pub record Favorites : Type 0 where
  pub favorites_count : ℕ
  pub favorited : Bool

abbrev pub no_favorites : Favorites
no_favorites = record { favorites_count = 0; favorited = false }

-- `viewerId === undefined ? 'FALSE' : 'COUNT(*) FILTER (WHERE favorite.userId = :viewerId) > 0'`
unfoldable pub favorited_column : Option Text → Text → List ArticleFavorite → Bool
favorited_column none id favorites = false
favorited_column (some viewer_id) id favorites = ltb 0 (
    count (λ f. ArticleFavorite.article_id f == id && ArticleFavorite.user_id f == viewer_id)
      favorites)

-- One group. PostgreSQL counts in 64 bits, which the driver hands over as a text.
unfoldable pub favorites_row : Option Text → List ArticleFavorite → Text → FavoritesRow
unfolding favorited_column
favorites_row viewer_id favorites id = record {
  article_id = id;
  favorites_count =
      RawCount.text (decimal (count (λ f. ArticleFavorite.article_id f == id) favorites));
  favorited = favorited_column viewer_id id favorites;
}

-- The groups, one for each article that has a favourite.
unfoldable pub favorites_rows : List Text → Option Text → Db → List FavoritesRow
unfolding favorites_row
favorites_rows ids viewer_id d = map (favorites_row viewer_id d.article_favorites) (
    unique_article_tag_names (
      map ArticleFavorite.article_id
        (select (λ f. contains ids (ArticleFavorite.article_id f)) d.article_favorites)))

-- The map of the rows: the count, and whether the viewer is among them.
unfoldable pub favorites_of : List FavoritesRow → Option (List (Text × Favorites))
unfolding parse_favorites_count
favorites_of [] = some []
favorites_of (row ∷ rows) = elim (parse_favorites_count row.favorites_count) [
  | none ↦ none
  | some n ↦ elim (favorites_of rows) [
    | none ↦ none
    | some entries ↦
        some ((row.article_id, record { favorites_count = n; favorited = row.favorited }) ∷ entries)
  ]
]

unfoldable pub followed_among : Text → List Text → Db → List Text
followed_among viewer_id author_ids d = map UserFollow.following_id (
    select
      (λ f.
        UserFollow.follower_id f == viewer_id && contains author_ids (UserFollow.following_id f))
      d.user_follows)

-- The context of one article, from the two maps and the set.
unfoldable pub hydrated_context :
    List (Text × List Text)
    → List (Text × Favorites)
    → List Text
    → Article × User
    → ArticleSerializationContext
unfolding get
hydrated_context tags favorites following (article, author) = record {
  tags = or_else (get article.id tags) [];
  favorited = (or_else (get article.id favorites) no_favorites).favorited;
  favorites_count = (or_else (get article.id favorites) no_favorites).favorites_count;
  author_following = contains following author.id;
}

unfoldable pub hydrated :
    List (Text × List Text)
    → List (Text × Favorites)
    → List Text
    → List (Article × User)
    → List (Article × User × ArticleSerializationContext)
unfolding hydrated_context
hydrated tags favorites following [] = []
hydrated tags favorites following (row ∷ rows) =
    (row.0, row.1, hydrated_context tags favorites following row)
    ∷ hydrated tags favorites following rows

abbrev pub article_ids : List (Article × User) → List Text
article_ids = map (λ row. Article.id row.0)

abbrev pub author_ids : List (Article × User) → List Text
author_ids rows = unique_article_tag_names (map (λ row. User.id row.1) rows)

-- `new Error('Invalid article favorite count')`
abbrev pub or_invalid_count : {S A : Type 0} → Option A → M S A
or_invalid_count none = throw (Exception.other_error (codes "Error"))
or_invalid_count (some a) = pure a

module _ (orm : Orm) where
  -- loadTags
  unfoldable pub load_tags : List Text → M (World orm.Env) (List (Text × List Text))
  unfolding tag_rows group_names
  load_tags ids = do rows ← orm.execute (query (tag_rows ids)); pure (group_names [] rows)

  -- loadFavorites
  unfoldable pub load_favorites :
      List Text → Option Text → M (World orm.Env) (List (Text × Favorites))
  unfolding favorites_rows favorites_of
  load_favorites ids viewer_id = do
    rows ← orm.execute (query (favorites_rows ids viewer_id))
    or_invalid_count (favorites_of rows)

  -- loadFollowingAuthors; without a viewer, the empty set.
  unfoldable pub load_following_authors : Option Text → List Text → M (World orm.Env) (List Text)
  unfolding followed_among
  load_following_authors none ids = pure []
  load_following_authors (some viewer_id) ids = orm.execute (query (followed_among viewer_id ids))

  -- hydrate. The three loads, which only read, run one after the other.
  unfoldable pub hydrate :
      List (Article × User)
      → Option Text
      → M (World orm.Env) (List (Article × User × ArticleSerializationContext))
  unfolding load_tags load_favorites load_following_authors hydrated
  hydrate [] viewer_id = pure []
  hydrate (row ∷ rows) viewer_id = do
    tags ← load_tags (article_ids (row ∷ rows))
    favorites ← load_favorites (article_ids (row ∷ rows)) viewer_id
    following ← load_following_authors viewer_id (author_ids (row ∷ rows))
    pure (hydrated tags favorites following (row ∷ rows))
