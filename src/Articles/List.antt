-- ===== src/Articles/List.antt =====
-- ArticleListQueryService (articles/article-list-query.service.ts).
pub mod Page
pub mod Laws
use nest_js_tutorial.Base.{
  ℕ, Bool, true, false, not, ◌&&◌, ◌||◌, Option, none, some, Text, ◌==◌, eqb, ltb, leb, List, [],
  ◌∷◌, any, find, select, take, drop, length, if◌then◌else◌, ℤ, pos, negsuc, is_safe_integer,
}
use nest_js_tutorial.Runtime.{Exception, M, pure, throw, ◌>>=◌, try_catch}
use nest_js_tutorial.Database.{
  Db, User, Article, Tag, ArticleTag, ArticleFavorite, Orm, World, query,
}
use nest_js_tutorial.Articles.Read.{has_follow}

pub record ArticleListQueryCriteria : Type 0 where
  pub tag : Option Text
  pub author_username : Option Text
  pub favorited_username : Option Text
  pub followed_by_user_id : Option Text
  pub offset : ℤ
  pub limit : ℤ

pub record ArticleListQueryResult : Type 0 where
  pub articles : List (Article × User)
  pub articles_count : ℕ

-- validateCriteria, on values of the declared types: the offset and the limit, if they are accepted.
abbrev pub natural : ℤ → Option ℕ
natural (pos n) = if is_safe_integer (pos n) then some n else none
natural (negsuc n) = none

abbrev pub valid_limit : Option ℕ → Option ℕ
valid_limit none = none
valid_limit (some n) = if ltb n 1 || ltb 100 n then none else some n

abbrev pub both : Option ℕ → Option ℕ → Option (ℕ × ℕ)
both (some offset) (some limit) = some (offset, limit)
both (some offset) none = none
both none limit = none

unfoldable pub validate_criteria : ArticleListQueryCriteria → Option (ℕ × ℕ)
validate_criteria criteria = both (natural criteria.offset) (valid_limit (natural criteria.limit))

-- `innerJoinAndSelect('article.author', 'author')`
unfoldable pub article_rows : List User → List Article → List (Article × User)
article_rows users [] = []
article_rows users (a ∷ articles) = elim (find (λ u. User.id u == a.author_id) users) [
  | none ↦ article_rows users articles
  | some u ↦ (a, u) ∷ article_rows users articles
]

abbrev is_tag_named : Text → Option Tag → Bool
is_tag_named name none = false
is_tag_named name (some t) = t.name == name

abbrev is_user_named : Text → Option User → Bool
is_user_named name none = false
is_user_named name (some u) = u.username == name

-- The subqueries of addFilters.
unfoldable pub has_tag : Text → Text → Db → Bool
has_tag article_id name d =
    any
      (λ l.
        ArticleTag.article_id l == article_id
        && is_tag_named name (find (λ t. Tag.id t == ArticleTag.tag_id l) d.tags))
      d.article_tags

unfoldable pub is_favorited_by : Text → Text → Db → Bool
is_favorited_by article_id username d =
    any
      (λ f.
        ArticleFavorite.article_id f == article_id
        && is_user_named username (find (λ u. User.id u == ArticleFavorite.user_id f) d.users))
      d.article_favorites

-- `if (criterion !== undefined) query.andWhere(…)`
abbrev pub if_given : Option Text → (Text → Bool) → Bool
if_given none p = true
if_given (some value) p = p value

-- addFilters
unfoldable pub matches : ArticleListQueryCriteria → Db → Article × User → Bool
unfolding has_tag is_favorited_by
matches criteria d (article, author) =
    if_given criteria.followed_by_user_id (λ id. has_follow id article.author_id d)
    && (if_given criteria.author_username (λ name. author.username == name)
        && (if_given criteria.tag (λ name. has_tag article.id name d)
            && if_given criteria.favorited_username (λ name. is_favorited_by article.id name d)))

-- The order of ids: that of their texts.
unfoldable pub text_leb : Text → Text → Bool
text_leb [] t = true
text_leb (c ∷ s) [] = false
text_leb (c ∷ s) (d ∷ t) = let rest = text_leb s t in ltb c d || (eqb c d && rest)

-- `orderBy('article.createdAt', 'DESC').addOrderBy('article.id', 'DESC')`
unfoldable pub is_newer : Article → Article → Bool
unfolding text_leb
is_newer a b =
    ltb b.created_at a.created_at || (eqb b.created_at a.created_at && text_leb b.id a.id)

unfoldable pub insert_by_age : Article × User → List (Article × User) → List (Article × User)
unfolding is_newer
insert_by_age r [] = r ∷ []
insert_by_age r (s ∷ ss) =
    let rest = insert_by_age r ss in if is_newer r.0 s.0 then r ∷ s ∷ ss else s ∷ rest

unfoldable pub order_by_age : List (Article × User) → List (Article × User)
unfolding insert_by_age
order_by_age [] = []
order_by_age (r ∷ rs) = insert_by_age r (order_by_age rs)

unfoldable pub matching_rows : ArticleListQueryCriteria → Db → List (Article × User)
unfolding matches article_rows
matching_rows criteria d = select (matches criteria d) (article_rows d.users d.articles)

-- `skip(offset).take(limit)`
unfoldable pub page_of : ArticleListQueryCriteria → ℕ → ℕ → Db → List (Article × User)
unfolding matching_rows order_by_age
page_of criteria offset limit d = take limit (drop offset (order_by_age (matching_rows criteria d)))

module _ (orm : Orm) where
  -- The two queries. The ids are a primary key, so that COUNT(DISTINCT id) counts the rows.
  unfoldable pub load_page :
      ArticleListQueryCriteria → ℕ → ℕ → M (World orm.Env) ArticleListQueryResult
  unfolding matching_rows page_of
  load_page criteria offset limit = do
    articles_count ← orm.execute (query (λ d. length (matching_rows criteria d)))
    articles ← orm.execute (query (page_of criteria offset limit))
    pure (record { articles = articles; articles_count = articles_count })

  abbrev pub list_valid :
      ArticleListQueryCriteria → Option (ℕ × ℕ) → M (World orm.Env) ArticleListQueryResult
  list_valid criteria none = throw Exception.article_list_query_validation
  list_valid criteria (some (offset, limit)) =
      try_catch (load_page criteria offset limit)
        (λ e. throw Exception.article_list_query_persistence)

  -- ArticleListQueryService.list
  unfoldable pub list : ArticleListQueryCriteria → M (World orm.Env) ArticleListQueryResult
  unfolding load_page validate_criteria
  list criteria = list_valid criteria (validate_criteria criteria)
