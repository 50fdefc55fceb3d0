-- ===== src/Tests/Articles/Updates.antt =====
-- Articles: Updates.
use nest_js_tutorial.Base.{
  ◌≡◌, ◌++◌, refl, Text, codes, none, some, [], ◌∷◌, ◌==◌, ==_iff, arith, select, find, count,
}
use nest_js_tutorial.Runtime.{Exception}
use nest_js_tutorial.Database.{World}
use nest_js_tutorial.Database.Statements.{user_by_username, article_by_slug}
use nest_js_tutorial.Database.Reliable.{memory_orm, steady_orm, Faults}
use nest_js_tutorial.Serializers.{ArticleDetail}
use nest_js_tutorial.Articles.Tags.{
  unique_article_tag_names, insert_tags, tag_id_of, tag_links, ordered_tag_names, add_links,
  drop_links, ensure_tags, replace_article_tags,
}
use nest_js_tutorial.Articles.Tags.Order.{HasUniqueTagIds}
use nest_js_tutorial.Articles.Tags.Replace.{replace_article_tags-ordered}
use nest_js_tutorial.Articles.Read
use nest_js_tutorial.Articles.Update
use nest_js_tutorial.Articles.Update.{ArticleUpdateDto}
use nest_js_tutorial.Articles.Update.Laws.{IsUpdatedBy, update_returned}
use nest_js_tutorial.Tests.Data.{sample, world, result, blank}

abbrev request : ArticleUpdateDto
request = record {
  title = some (codes "New");
  description = none;
  body = some (codes "b");
  tag_list = some (codes "y" ∷ codes "x" ∷ codes "y" ∷ []);
}

abbrev new_id : Text → Text
new_id name = codes "t-" ++ name

abbrev updated : World (Unit {0})
updated = (Update.update steady_orm 9 new_id (codes "hello-1") (codes "jane") request world).1

abbrev shown : ArticleDetail
shown =
    result (Update.update steady_orm 9 new_id (codes "hello-1") (codes "jane") request world).0
      blank

updated-HasUniqueTagIds : HasUniqueTagIds updated.db.tags
unfolding Update.update Update.update_in_transaction user_by_username article_by_slug find select
    ◌==◌ Update.scalar_changed Update.apply_scalar_changes Update.update_article
    Read.article_and_author unique_article_tag_names ordered_tag_names add_links drop_links
    ensure_tags insert_tags tag_links tag_id_of count
updated-HasUniqueTagIds id = ground (arith, ==_iff (codes "t1") id, ==_iff (codes "t-y") id)

update_returned_example :
    IsUpdatedBy (codes "hello-1") (codes "jane") 9 request sample updated.db shown
unfolding Update.update Update.update_in_transaction user_by_username article_by_slug find select
    ◌==◌ Update.scalar_changed Update.apply_scalar_changes Update.update_article
    Read.article_and_author Read.favorites_count Read.has_favorite Read.has_follow
    unique_article_tag_names ordered_tag_names add_links drop_links ensure_tags insert_tags
    tag_links tag_id_of count
update_returned_example =
    update_returned steady_orm 9 new_id (codes "hello-1") (codes "jane") request world updated shown
      refl updated-HasUniqueTagIds

update_tags_test : ordered_tag_names (codes "a1") updated.db ≡ codes "y" ∷ codes "x" ∷ []
unfolding Update.update Update.update_in_transaction user_by_username article_by_slug find select
    ◌==◌ Update.scalar_changed Update.apply_scalar_changes Update.update_article
    Read.article_and_author Read.favorites_count Read.has_favorite Read.has_follow
    unique_article_tag_names ordered_tag_names add_links drop_links ensure_tags insert_tags
    tag_links tag_id_of count
update_tags_test = refl

-- The driver fails at the second statement.
abbrev faulty : World Faults
faulty = record { db = sample; env = none ∷ some (Exception.other_error (codes "lost")) ∷ [] }

abbrev failed : World Faults
failed = (Update.update memory_orm 9 new_id (codes "hello-1") (codes "jane") request faulty).1

abbrev replaced : World (Unit {0})
replaced =
    (replace_article_tags steady_orm new_id (codes "a1") (codes "z" ∷ codes "x" ∷ []) world).1

replaced-HasUniqueTagIds : HasUniqueTagIds replaced.db.tags
unfolding replace_article_tags unique_article_tag_names ensure_tags insert_tags drop_links add_links
    tag_id_of tag_links find select count ◌==◌
replaced-HasUniqueTagIds id = ground (arith, ==_iff (codes "t1") id, ==_iff (codes "t-z") id)

replace_article_tags_example :
    (unique_article_tag_names (codes "z" ∷ codes "x" ∷ [])
      ≡ unique_article_tag_names (codes "z" ∷ codes "x" ∷ []))
    × (ordered_tag_names (codes "a1") replaced.db
        ≡ unique_article_tag_names (codes "z" ∷ codes "x" ∷ []))
unfolding replace_article_tags unique_article_tag_names ensure_tags insert_tags drop_links add_links
    tag_id_of tag_links find select ◌==◌
replace_article_tags_example =
    replace_article_tags-ordered steady_orm new_id (codes "a1") (codes "z" ∷ codes "x" ∷ []) world
      replaced (unique_article_tag_names (codes "z" ∷ codes "x" ∷ [])) refl replaced-HasUniqueTagIds
