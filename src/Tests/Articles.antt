-- ===== src/Tests/Articles.antt =====
-- The deletion and the slugs of articles.
mod Updates
mod Favorites
mod Creation
mod Listing
mod Routes
use nest_js_tutorial.Base.{
  ℕ, ◌≡◌, ◌≤◌, ◌++◌, refl, Bool, true, false, Text, codes, Option, none, some, List, [], ◌∷◌, ◌==◌,
  ==_iff, arith, select, find, count, zero, suc, eqb,
}
use nest_js_tutorial.Runtime.{Exception, Outcome, returned, thrown}
use nest_js_tutorial.Database.{Db, World, User, Tag}
use nest_js_tutorial.Database.Statements.{user_by_username, article_by_slug}
use nest_js_tutorial.Database.Reliable.{memory_orm, steady_orm, steady_orm-IsReliable, Faults}
use nest_js_tutorial.Serializers.{ArticleDetail, serialize_article_detail, to_article_fields}
use nest_js_tutorial.Articles.Slug.{Unicode, create_article_slug, hyphen}
use nest_js_tutorial.Articles.Slug.Shape.{IsSlugBase, create_article_slug-IsSlugBase}
use nest_js_tutorial.Articles.Tags.{
  unique_article_tag_names, insert_tags, tag_id_of, tag_links, insert_by_position,
  order_by_position, names_of_links, ordered_tag_names, add_links, drop_links, ensure_tags,
  contains, replace_article_tags, persist_article_tags,
}
use nest_js_tutorial.Articles.Tags.Order.{HasUniqueTagIds}
use nest_js_tutorial.Articles.Tags.Unique.{has_no_repeats, unique_article_tag_names_lem}
use nest_js_tutorial.Articles.Tags.Replace.{replace_article_tags-ordered}
use nest_js_tutorial.Articles.Read
use nest_js_tutorial.Articles.Read.Laws.{IsViewer, detail_for, get_by_slug_returned}
use nest_js_tutorial.Articles.Create
use nest_js_tutorial.Articles.Create.{NewArticleDto, Generated}
use nest_js_tutorial.Articles.Create.Laws.{
  IsCreated, is_create_error, has_slug, create_returned, create_atomic, create_refused,
}
use nest_js_tutorial.Articles.Update
use nest_js_tutorial.Articles.Update.{ArticleUpdateDto}
use nest_js_tutorial.Articles.Update.Laws.{IsUpdatedBy, update_returned, update_atomic}
use nest_js_tutorial.Articles.Delete
use nest_js_tutorial.Articles.Delete.Laws.{
  IsDeletedBy, HasUniqueArticleIds, delete_decision, delete_returned, delete_atomic,
  delete_reliable,
}
use nest_js_tutorial.Articles.Favorite
use nest_js_tutorial.Articles.Favorite.Laws.{IsFavoriteSet}
use nest_js_tutorial.Articles.Favorite.Laws
use nest_js_tutorial.Tests.Data.{sample, world, ascii, hello, jane, john, result}

slug_example :
    (base : Text) × (create_article_slug ascii (codes "--a  b!") (codes "7")
      ≡ base ++ hyphen ∷ codes "7")
    × IsSlugBase base
slug_example = create_article_slug-IsSlugBase ascii (codes "--a  b!") (codes "7")

-- A musical stem (U+1D165), which is a mark outside the basic plane, is removed as one code point.
abbrev with_stems : Unicode
with_stems = record ascii { is_mark = λ c. eqb c 119141 }

marks_test :
    create_article_slug with_stems (b'a' ∷ 55348 ∷ 56677 ∷ b'b' ∷ 55348 ∷ b'c' ∷ []) (codes "7")
    ≡ codes "ab-c-7"
unfolding create_article_slug
marks_test = refl

slug_test : create_article_slug ascii (codes "--a  b!") (codes "7") ≡ codes "a-b-7"
unfolding create_article_slug
slug_test = refl

abbrev by_jane : World (Unit {0})
by_jane = (Delete.delete steady_orm (codes "hello-1") (codes "jane") world).1

abbrev by_john : World (Unit {0})
by_john = (Delete.delete steady_orm (codes "hello-1") (codes "john") world).1

sample-HasUniqueArticleIds : HasUniqueArticleIds sample
unfolding count
sample-HasUniqueArticleIds id = ground arith

delete_reliable_example :
    ◌≡◌ {A = Outcome (Unit {0}) × Db}
      (
        (Delete.delete steady_orm (codes "hello-1") (codes "jane") world).0,
        (Delete.delete steady_orm (codes "hello-1") (codes "jane") world).1.db,
      )
      (delete_decision
        (user_by_username (codes "jane") sample)
        (article_by_slug (codes "hello-1") sample)
        sample)
delete_reliable_example =
    delete_reliable steady_orm steady_orm-IsReliable (codes "hello-1") (codes "jane") world
      sample-HasUniqueArticleIds
