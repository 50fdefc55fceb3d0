-- ===== src/Tests/Reads.antt =====
-- The reading routes over the in-memory driver.
use nest_js_tutorial.Base.{codes, none}
use nest_js_tutorial.Database.Reliable.{memory_orm}
use nest_js_tutorial.Database.ReadOnly.{IsReadOnly}
use nest_js_tutorial.Articles.Requests.{ArticlePagination}
use nest_js_tutorial.Articles.Controller.{
  ArticleListQuery, list_route, feed_route, get_by_slug_route,
}
use nest_js_tutorial.Comments
use nest_js_tutorial.Profiles.{get_profile}
use nest_js_tutorial.Api.Reads.{reads_lem}

abbrev first_page : ArticlePagination
first_page = record { offset = 0; limit = 20 }

abbrev everything : ArticleListQuery
everything = record { tag = none; author = none; favorited = none; page = first_page }

reads_example :
    IsReadOnly (list_route memory_orm everything none)
    × IsReadOnly (feed_route memory_orm first_page (codes "jane"))
    × IsReadOnly (get_by_slug_route memory_orm (codes "hello-1") none)
    × IsReadOnly (Comments.list memory_orm (codes "hello-1") none)
    × IsReadOnly (get_profile memory_orm (codes "jane"))
reads_example =
    reads_lem memory_orm everything first_page (codes "hello-1") (codes "jane") none (codes "jane")
