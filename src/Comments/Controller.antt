-- ===== src/Comments/Controller.antt =====
-- CommentsController (comments/comments.controller.ts). ParseIntPipe of NestJS is a parameter.
pub mod Laws
use nest_js_tutorial.Base.{ℕ, Option, none, some, Text, codes, List, ℤ}
use nest_js_tutorial.Runtime.{Exception, Outcome, returned, M, pure, throw, ◌>>=◌, errors_body}
use nest_js_tutorial.Database.{Orm, World}
use nest_js_tutorial.Serializers.{SerializedComment}
use nest_js_tutorial.Comments.{create, list, delete}

pub record CommentList : Type 0 where
  pub comments : List SerializedComment

pub record CommentBody : Type 0 where
  pub comment : SerializedComment

-- `exceptionFactory`
abbrev pub id_error : Exception
id_error = Exception.http 422 (errors_body (codes "id") (codes "must be an integer"))

module _ (orm : Orm) where
  unfoldable pub list_comments_route : Text → Option Text → M (World orm.Env) CommentList
  unfolding list
  list_comments_route slug viewer = do
    comments ← list orm slug viewer
    pure (record { comments = comments })

  -- `new_id` and `now` are those of the new row.
  unfoldable pub create_comment_route : ℕ → ℕ → Text → Text → Text → M (World orm.Env) CommentBody
  unfolding create
  create_comment_route new_id now slug username body = do
    comment ← create orm new_id now slug username body
    pure (record { comment = comment })

  abbrev pub delete_parsed : Text → Text → Option ℤ → M (World orm.Env) (Unit {0})
  delete_parsed slug username none = throw id_error
  delete_parsed slug username (some id) = delete orm slug id username

  -- `delete`, of the text of the id.
  unfoldable pub delete_comment_route :
      (Text → Option ℤ) → Text → Text → Text → M (World orm.Env) (Unit {0})
  unfolding delete
  delete_comment_route parse_int id slug username = delete_parsed slug username (parse_int id)
