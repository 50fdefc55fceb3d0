-- ===== src/Tests/Articles/Listing.antt =====
-- Lists of articles.
use nest_js_tutorial.Base.{◌≡◌, refl, codes, none, some, [], ◌==◌, find, select, pos}
use nest_js_tutorial.Database.{World}
use nest_js_tutorial.Database.Reliable.{steady_orm}
use nest_js_tutorial.Articles.List
use nest_js_tutorial.Articles.List.{ArticleListQueryCriteria, ArticleListQueryResult}
use nest_js_tutorial.Articles.List.Laws.{IsListed, list_query_returned}
use nest_js_tutorial.Tests.Data.{sample, world, result}

abbrev by_tag : ArticleListQueryCriteria
by_tag = record {
  tag = some (codes "x");
  author_username = some (codes "jane");
  favorited_username = none;
  followed_by_user_id = none;
  offset = pos 0;
  limit = pos 20;
}

abbrev nothing : ArticleListQueryResult
nothing = record { articles = []; articles_count = 0 }

abbrev listed : ArticleListQueryResult
listed = result (List.list steady_orm by_tag world).0 nothing

abbrev after_listing : World (Unit {0})
after_listing = (List.list steady_orm by_tag world).1

list_query_example : IsListed by_tag sample after_listing.db listed
unfolding List.list List.validate_criteria
list_query_example = list_query_returned steady_orm by_tag world after_listing listed refl

list_test : listed.articles_count ≡ 1
unfolding List.list List.validate_criteria List.matching_rows List.matches List.article_rows
    List.has_tag find select ◌==◌
list_test = refl
