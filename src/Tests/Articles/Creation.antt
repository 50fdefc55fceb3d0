-- ===== src/Tests/Articles/Creation.antt =====
-- Articles: Creation.
use nest_js_tutorial.Base.{
  ◌++◌, refl, codes, some, [], ◌∷◌, ◌==◌, ==_iff, arith, select, find, count,
}
use nest_js_tutorial.Database.{World}
use nest_js_tutorial.Database.Statements.{user_by_username}
use nest_js_tutorial.Database.Reliable.{steady_orm}
use nest_js_tutorial.Serializers.{ArticleDetail}
use nest_js_tutorial.Articles.Slug.{create_article_slug}
use nest_js_tutorial.Articles.Tags.{
  unique_article_tag_names, insert_tags, tag_id_of, tag_links, add_links, ensure_tags,
}
use nest_js_tutorial.Articles.Tags.Order.{HasUniqueTagIds}
use nest_js_tutorial.Articles.Create
use nest_js_tutorial.Articles.Create.{NewArticleDto, Generated}
use nest_js_tutorial.Articles.Create.Laws.{IsCreated, create_returned}
use nest_js_tutorial.Tests.Data.{sample, world, ascii, result, blank}

abbrev request : NewArticleDto
request = record {
  title = codes "hello";
  description = codes "d";
  body = codes "b";
  tag_list = some (codes "x" ∷ codes "n" ∷ codes "x" ∷ []);
}

abbrev new : Generated
new = record {
  slug_id = codes "2";
  article_id = codes "a2";
  now = 7;
  tag_id = λ name. codes "t-" ++ name;
}

abbrev created : World (Unit {0})
created = (Create.create steady_orm ascii new (codes "jane") request world).1

abbrev shown : ArticleDetail
shown = result (Create.create steady_orm ascii new (codes "jane") request world).0 blank

created-HasUniqueTagIds : HasUniqueTagIds created.db.tags
unfolding Create.create Create.insert_article create_article_slug user_by_username find select ◌==◌
    unique_article_tag_names ensure_tags insert_tags add_links tag_id_of tag_links count
created-HasUniqueTagIds id = ground (arith, ==_iff (codes "t1") id, ==_iff (codes "t-n") id)

create_returned_example : IsCreated ascii new (codes "jane") request sample created.db shown
unfolding Create.create Create.insert_article create_article_slug user_by_username find select ◌==◌
    unique_article_tag_names ensure_tags insert_tags add_links tag_id_of tag_links
create_returned_example =
    create_returned steady_orm ascii new (codes "jane") request world created shown refl refl
      created-HasUniqueTagIds

abbrev unknown : World (Unit {0})
unknown = (Create.create steady_orm ascii new (codes "nobody") request world).1

-- The slug that `hello` has.
abbrev same_slug : Generated
same_slug = record new { slug_id = codes "1" }
