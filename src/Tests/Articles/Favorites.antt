-- ===== src/Tests/Articles/Favorites.antt =====
-- Articles: Favorites.
use nest_js_tutorial.Base.{refl, codes, none, ◌==◌, select, find, count}
use nest_js_tutorial.Database.{World}
use nest_js_tutorial.Database.Statements.{user_by_username, article_by_slug}
use nest_js_tutorial.Database.Reliable.{steady_orm}
use nest_js_tutorial.Serializers.{ArticleDetail}
use nest_js_tutorial.Articles.Tags.{ordered_tag_names}
use nest_js_tutorial.Articles.Read
use nest_js_tutorial.Articles.Read.Laws.{IsShown, get_by_slug_returned}
use nest_js_tutorial.Articles.Favorite
use nest_js_tutorial.Tests.Data.{sample, world, result, blank}

abbrev favored : World (Unit {0})
favored = (Favorite.create steady_orm (codes "hello-1") (codes "john") world).1

abbrev shown : ArticleDetail
shown = result (Favorite.create steady_orm (codes "hello-1") (codes "john") world).0 blank

abbrev taken_back : World (Unit {0})
taken_back = (Favorite.delete steady_orm (codes "hello-1") (codes "john") favored).1

abbrev shown_then : ArticleDetail
shown_then = result (Favorite.delete steady_orm (codes "hello-1") (codes "john") favored).0 blank

abbrev seen : ArticleDetail
seen = result (Read.get_by_slug steady_orm (codes "hello-1") none world).0 blank

abbrev after_reading : World (Unit {0})
after_reading = (Read.get_by_slug steady_orm (codes "hello-1") none world).1

get_by_slug_example : IsShown (codes "hello-1") none sample after_reading.db seen
unfolding Read.get_by_slug user_by_username article_by_slug find select count ◌==◌
    Read.article_and_author Read.favorites_count Read.has_favorite Read.has_follow ordered_tag_names
get_by_slug_example =
    get_by_slug_returned steady_orm (codes "hello-1") none world after_reading seen refl
