-- ===== src/Tests/Articles/Routes.antt =====
-- The routes of articles: their failures, and the pages that they show.
use nest_js_tutorial.Base.{
  ◌≡◌, refl, true, Text, codes, none, some, List, [], ◌∷◌, ◌++◌, ◌==◌, find, select, all,
}
use nest_js_tutorial.Runtime.{Exception, Outcome, returned, thrown}
use nest_js_tutorial.Database.{World, Db, User, Article}
use nest_js_tutorial.Database.Statements.{user_by_username}
use nest_js_tutorial.Database.Reliable.{steady_orm}
use nest_js_tutorial.Serializers.{ArticleList, ArticleDetail, ArticleSerializationContext}
use nest_js_tutorial.Articles.Create.{NewArticleDto, Generated}
use nest_js_tutorial.Articles.Update.{ArticleUpdateDto}
use nest_js_tutorial.Articles.List
use nest_js_tutorial.Articles.List.{
  ArticleListQueryCriteria, ArticleListQueryResult, validate_criteria,
}
use nest_js_tutorial.Articles.List.Laws.{IsListed}
use nest_js_tutorial.Articles.Read.{has_follow}
use nest_js_tutorial.Articles.Tags.{unique_article_tag_names}
use nest_js_tutorial.Articles.Hydrator
use nest_js_tutorial.Articles.Hydrator.{hydrate}
use nest_js_tutorial.Articles.Hydrator.Laws.{own_contexts, hydrate_returned}
use nest_js_tutorial.Articles.Feed
use nest_js_tutorial.Articles.Feed.Laws.{shown, followed_by, feed_returned}
use nest_js_tutorial.Articles.Requests.{ArticlePagination}
use nest_js_tutorial.Articles.Controller.{
  ArticleListQuery, list_route, create_route, update_route, delete_route, feed_criteria,
}
use nest_js_tutorial.Tests.Data.{sample, world, ascii, hello, jane, result}

abbrev new : Generated
new = record {
  slug_id = codes "2";
  article_id = codes "a2";
  now = 7;
  tag_id = λ name. codes "t-" ++ name;
}

abbrev request : NewArticleDto
request = record {
  title = codes "hello";
  description = codes "d";
  body = codes "b";
  tag_list = none;
}

-- What a route throws.
abbrev error_of : {A : Type 0} → Outcome A × World (Unit {0}) → Exception
error_of (returned a, w) = Exception.other_error []
error_of (thrown e, w) = e

abbrev by_nobody : Outcome ArticleDetail × World (Unit {0})
by_nobody = create_route steady_orm ascii new request (codes "nobody") world

abbrev by_john : Outcome (Unit {0}) × World (Unit {0})
by_john = delete_route steady_orm (codes "hello-1") (codes "john") world

abbrev no_change : ArticleUpdateDto
no_change = record { title = none; description = none; body = none; tag_list = none }

abbrev new_tag : Text → Text
new_tag name = name

abbrev updated_by_john : Outcome ArticleDetail × World (Unit {0})
updated_by_john = update_route steady_orm 9 new_tag (codes "hello-1") no_change (codes "john") world

abbrev first_page : ArticlePagination
first_page = record { offset = 0; limit = 20 }

abbrev everything : ArticleListQuery
everything = record { tag = none; author = none; favorited = none; page = first_page }

abbrev listed_for_nobody : Outcome ArticleList × World (Unit {0})
listed_for_nobody = list_route steady_orm everything (some (codes "nobody")) world

abbrev page : List (Article × User)
page = (hello, jane) ∷ []

abbrev hydrated_page : List (Article × User × ArticleSerializationContext)
hydrated_page = result (hydrate steady_orm page (some (codes "u2")) world).0 []

hydrate_example :
    (hydrated_page ≡ own_contexts (some (codes "u2")) sample page)
    × ((hydrate steady_orm page (some (codes "u2")) world).1.db ≡ sample)
unfolding hydrate Hydrator.load_favorites Hydrator.favorites_rows Hydrator.favorites_of
    unique_article_tag_names select
hydrate_example =
    hydrate_returned steady_orm page (some (codes "u2")) world
      (hydrate steady_orm page (some (codes "u2")) world).1 hydrated_page refl

-- John follows Jane.
abbrev followed : Db
followed = record sample {
  user_follows = record { follower_id = codes "u2"; following_id = codes "u1" } ∷ [];
}

abbrev feed_world : World (Unit {0})
feed_world = record { db = followed; env = tt }

abbrev empty_list : ArticleList
empty_list = record { articles = []; articles_count = 0 }

abbrev fed : Outcome ArticleList × World (Unit {0})
fed = Feed.feed steady_orm (feed_criteria first_page) (codes "john") feed_world

abbrev shown_list : ArticleList
shown_list = result fed.0 empty_list

feed_example :
    (viewer : User) × (user_by_username (codes "john") followed ≡ some viewer)
    × (page : ArticleListQueryResult) × IsListed
        (followed_by viewer (feed_criteria first_page))
        followed
        followed
        page
    × (all (λ row. has_follow viewer.id (Article.author_id row.0) followed) page.articles ≡ true)
    × (shown_list ≡ shown page (some viewer) followed)
    × (fed.1.db ≡ followed)
unfolding Feed.feed Feed.find_list_viewer user_by_username find ◌==◌ List.list select has_follow
    hydrate unique_article_tag_names
feed_example =
    feed_returned steady_orm (feed_criteria first_page) (codes "john") feed_world fed.1 (shown_list)
      refl
