-- ===== src/Articles/Tags.antt =====
-- The tags of an article (articles/article-tag-persistence.ts), and their loading in order
-- (loadOrderedTags and loadOrderedTagNames of articles/article.service.ts).
pub mod Unique
pub mod Order
pub mod Replace
use nest_js_tutorial.Base.{
  ℕ, suc, Bool, true, false, not, ◌||◌, ◌&&◌, Option, none, some, Text, ◌==◌, List, [], ◌∷◌, ◌++◌,
  map, any, all, find, select, leb, if◌then◌else◌,
}
use nest_js_tutorial.Runtime.{Exception, M, pure, throw, throw_if, ◌>>=◌, ◌>>◌}
use nest_js_tutorial.Database.{Db, Tag, ArticleTag, Orm, World, command, query}

abbrev pub contains : List Text → Text → Bool
contains xs x = any (λ y. y == x) xs

-- The elements of `names` that are not in `seen`, each once, in the order of insertion.
unfoldable pub unique_from : List Text → List Text → List Text
unique_from seen [] = []
unique_from seen (x ∷ xs) =
    let fresh = x ∷ unique_from (x ∷ seen) xs in
    let old = unique_from seen xs in if contains seen x then old else fresh

-- uniqueArticleTagNames: `[...new Set(names)]`
unfoldable pub unique_article_tag_names : List Text → List Text
unfolding unique_from
unique_article_tag_names names = unique_from [] names

-- `insert().values(names).orIgnore()` on the tags. The database makes the ids.
unfoldable pub insert_tags : (Text → Text) → List Text → List Tag → List Tag
insert_tags new_id [] tags = tags
insert_tags new_id (name ∷ names) tags = insert_tags new_id names (
    if any (λ t. Tag.name t == name) tags
    then tags
    else tags ++ record { id = new_id name; name = name } ∷ [])

-- `new Map(…)` from names to ids: a later entry replaces an earlier one.
unfoldable pub tag_id_of : List Tag → Text → Option Text
tag_id_of [] name = none
tag_id_of (t ∷ ts) name = elim (tag_id_of ts name) [
  | some id ↦ some id
  | none ↦ if t.name == name then some t.id else none
]

abbrev pub is_some : {A : Type 0} → Option A → Bool
is_some none = false
is_some (some a) = true

abbrev pub or_empty : Option Text → Text
or_empty none = []
or_empty (some s) = s

-- The rows of `names.map((name, position) => …)`, from a first position on.
unfoldable pub tag_links : Text → List Tag → ℕ → List Text → List ArticleTag
tag_links article_id stored position [] = []
tag_links article_id stored position (name ∷ names) =
    record {
      article_id = article_id;
      tag_id = or_empty (tag_id_of stored name);
      position = position;
    }
    ∷ tag_links article_id stored (suc position) names

-- `orderBy('articleTag.position', 'ASC')`
unfoldable pub insert_by_position : ArticleTag → List ArticleTag → List ArticleTag
insert_by_position l [] = l ∷ []
insert_by_position l (m ∷ ms) =
    if leb l.position m.position then l ∷ m ∷ ms else m ∷ insert_by_position l ms

unfoldable pub order_by_position : List ArticleTag → List ArticleTag
order_by_position [] = []
order_by_position (l ∷ ls) = insert_by_position l (order_by_position ls)

-- `innerJoin('articleTag.tag', 'tag').select('tag.name')`: a link without its tag has no row.
unfoldable pub names_of_links : List Tag → List ArticleTag → List Text
names_of_links tags [] = []
names_of_links tags (l ∷ ls) = elim (find (λ t. Tag.id t == l.tag_id) tags) [
  | none ↦ names_of_links tags ls
  | some t ↦ t.name ∷ names_of_links tags ls
]

-- The query of loadOrderedTags and of loadOrderedTagNames.
unfoldable pub ordered_tag_names : Text → Db → List Text
unfolding names_of_links order_by_position insert_by_position
ordered_tag_names article_id d =
    names_of_links d.tags
      (order_by_position (select (λ l. ArticleTag.article_id l == article_id) d.article_tags))

-- The statement of insertArticleTagLinks, and the `delete({ articleId })` of replaceArticleTags.
unfoldable pub add_links : List ArticleTag → Db → Db
add_links links d = record d { article_tags = d.article_tags ++ links }

unfoldable pub drop_links : Text → Db → Db
drop_links article_id d = record d {
  article_tags = select (λ l. not (ArticleTag.article_id l == article_id)) d.article_tags;
}

unfoldable pub ensure_tags : (Text → Text) → List Text → Db → Db
ensure_tags new_id names d = record d { tags = insert_tags new_id names d.tags }

module _ (orm : Orm) (new_id : Text → Text) where
  -- ensureTagsExist, which returns the stored tags of these names in place of the map made of them.
  unfoldable pub ensure_tags_exist : List Text → M (World orm.Env) (List Tag)
  ensure_tags_exist [] = pure []
  ensure_tags_exist (n ∷ ns) =
      let names = n ∷ ns in
      do
        orm.execute (command (ensure_tags new_id names))
        stored ← orm.execute (query (λ d. select (λ t. contains names (Tag.name t)) d.tags))
        throw_if (not (all (λ name. is_some (tag_id_of stored name)) names))
            Exception.article_tag_persistence
        pure stored

  -- insertArticleTagLinks
  unfoldable pub insert_article_tag_links :
      Text → List Text → List Tag → M (World orm.Env) (Unit {0})
  insert_article_tag_links article_id [] stored = pure tt
  insert_article_tag_links article_id (n ∷ ns) stored =
      orm.execute (command (add_links (tag_links article_id stored 0 (n ∷ ns))))

  unfoldable pub persist_article_tags : Text → List Text → M (World orm.Env) (List Text)
  unfolding ensure_tags_exist insert_article_tag_links
  persist_article_tags article_id names =
      let unique_names = unique_article_tag_names names in
      do
        stored ← ensure_tags_exist unique_names
        insert_article_tag_links article_id unique_names stored
        pure unique_names

  unfoldable pub replace_article_tags : Text → List Text → M (World orm.Env) (List Text)
  unfolding ensure_tags_exist insert_article_tag_links
  replace_article_tags article_id names =
      let unique_names = unique_article_tag_names names in
      do
        stored ← ensure_tags_exist unique_names
        orm.execute (command (drop_links article_id))
        insert_article_tag_links article_id unique_names stored
        pure unique_names
