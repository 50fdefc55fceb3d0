-- ===== src/Tests/Comments.antt =====
-- Comments.
use nest_js_tutorial.Base.{
  Text, Option, ℤ, if◌then◌else◌, ◌≡◌, refl, true, codes, some, none, List, [], ◌==◌, find, select,
  count, arith, pos, trim, ◌∷◌, Bool, eqb,
}
use nest_js_tutorial.Runtime.{Outcome}
use nest_js_tutorial.Database.{Db, Comment, World}
use nest_js_tutorial.Database.Statements.{user_by_username, article_by_slug}
use nest_js_tutorial.Database.Reliable.{steady_orm, steady_orm-IsReliable}
use nest_js_tutorial.Serializers.{SerializedComment, serialize_comment}
use nest_js_tutorial.Comments
use nest_js_tutorial.Comments.{comments_of, stored_id}
use nest_js_tutorial.Comments.Order.{is_oldest_first, comments_of_lem}
use nest_js_tutorial.Comments.Laws.{delete_decision, HasUniqueCommentIds, comment_delete_reliable}
use nest_js_tutorial.Comments.Controller.{delete_comment_route}
use nest_js_tutorial.Comments.Controller.Laws.{IsAnswered, delete_comment_route_answers}
use nest_js_tutorial.Comments.Listing.{IsListed, list_returned}
use nest_js_tutorial.Tests.Data.{sample, world, result}

abbrev commented : World (Unit {0})
commented =
    (Comments.create steady_orm 7 50 (codes "hello-1") (codes "john") (codes " hi ") world).1

abbrev no_comment : SerializedComment
no_comment = record {
  id = 0;
  created_at = 0;
  updated_at = 0;
  body = [];
  author = record { username = []; bio = none; image = none; following = Bool.false };
}

abbrev shown : SerializedComment
shown =
    result (Comments.create steady_orm 7 50 (codes "hello-1") (codes "john") (codes " hi ") world).0
      no_comment

trim_test : shown.body ≡ codes "hi"
unfolding Comments.create Comments.create_in_transaction Comments.insert_comment user_by_username
    article_by_slug find ◌==◌ trim serialize_comment
trim_test = refl

commented-HasUniqueCommentIds : HasUniqueCommentIds commented.db
unfolding Comments.create Comments.create_in_transaction Comments.insert_comment user_by_username
    article_by_slug find ◌==◌ count
commented-HasUniqueCommentIds id = ground arith

comment_delete_reliable_example :
    ◌≡◌ {A = Outcome (Unit {0}) × Db}
      (
        (Comments.delete steady_orm (codes "hello-1") (pos 7) (codes "john") commented).0,
        (Comments.delete steady_orm (codes "hello-1") (pos 7) (codes "john") commented).1.db,
      )
      (delete_decision
        (article_by_slug (codes "hello-1") commented.db)
        (user_by_username (codes "john") commented.db)
        (stored_id (pos 7))
        commented.db)
comment_delete_reliable_example =
    comment_delete_reliable steady_orm steady_orm-IsReliable (codes "hello-1") (pos 7)
      (codes "john") commented commented-HasUniqueCommentIds

abbrev listed : List SerializedComment
listed = result (Comments.list steady_orm (codes "hello-1") (some (codes "jane")) commented).0 []

abbrev after_listing : World (Unit {0})
after_listing = (Comments.list steady_orm (codes "hello-1") (some (codes "jane")) commented).1

list_returned_example :
    IsListed (codes "hello-1") (some (codes "jane")) commented.db after_listing.db listed
unfolding Comments.create Comments.create_in_transaction Comments.insert_comment Comments.list
    Comments.show_comments comments_of user_by_username article_by_slug find select ◌==◌
list_returned_example =
    list_returned steady_orm (codes "hello-1") (some (codes "jane")) commented after_listing listed
      refl

abbrev is_seventh : Comment → Bool
is_seventh c = eqb c.id 7

abbrev talk : Db
talk = record sample {
  comments =
      record {
        id = 7;
        article_id = codes "a1";
        author_id = codes "u2";
        body = codes "second";
        created_at = 50;
        updated_at = 50;
      }
      ∷ record {
        id = 3;
        article_id = codes "a1";
        author_id = codes "u1";
        body = codes "first";
        created_at = 40;
        updated_at = 40;
      }
      ∷ [];
}

comments_of_example :
    (is_oldest_first (comments_of (codes "a1") talk) ≡ true)
    × (count (λ c. is_seventh (c.0)) (comments_of (codes "a1") talk)
        ≡ count is_seventh (select (λ c. Comment.article_id c == codes "a1") talk.comments))
unfolding select ◌==◌
comments_of_example = comments_of_lem (codes "a1") talk is_seventh (refl, (refl, tt))

-- An id in decimal.
abbrev parse_int : Text → Option ℤ
parse_int s = if s == codes "7" then some (pos 7) else none

delete_route_example : IsAnswered commented.db (
  (delete_comment_route steady_orm parse_int
      (codes "7")
      (codes "hello-1")
      (codes "john")
      commented).0,
  (delete_comment_route steady_orm parse_int
      (codes "7")
      (codes "hello-1")
      (codes "john")
      commented).1.db,
)
delete_route_example =
    delete_comment_route_answers steady_orm steady_orm-IsReliable commented
      commented-HasUniqueCommentIds parse_int (codes "7") (codes "hello-1") (codes "john")
