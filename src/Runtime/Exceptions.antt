-- ===== src/Runtime/Exceptions.antt =====
-- The error classes of the program. What an error keeps as its `cause` is never read by the code,
-- and is left out.
use nest_js_tutorial.Base.{ℕ, Text, codes, Option, none, some}
use nest_js_tutorial.Runtime.Values.{Value, errors_body}

-- The properties that the code reads of an error of the PostgreSQL driver.
pub record DriverFields : Type 0 where
  pub code : Option Text
  pub constraint : Option Text
  pub detail : Option Text

-- AuthConflictField of auth/auth-registration-support.ts.
pub data ConflictField : Type 0 where
  body email username : ConflictField

pub data Exception : Type 0 where
  -- An HttpException of NestJS with its status and response.
  http : ℕ → Value → Exception
  -- An error object of the driver: its own fields, and those of its `driverError`, if it has one.
  driver : Option DriverFields → DriverFields → Exception
  -- Any other Error, by its name, and a thrown value that is no Error.
  other_error : Text → Exception
  thrown_value : Value → Exception
  -- articles/article.service.ts and its parts
  article_author_not_found article_slug_conflict article_create_persistence : Exception
  article_not_found article_viewer_not_found : Exception
  article_update_user_not_found article_update_article_not_found : Exception
  article_update_forbidden article_update_persistence : Exception
  article_delete_user_not_found article_delete_article_not_found : Exception
  article_delete_forbidden article_delete_persistence : Exception
  article_list_viewer_not_found article_list_persistence : Exception
  article_list_query_validation article_list_query_persistence : Exception
  article_favorite_user_not_found article_favorite_article_not_found : Exception
  article_tag_persistence : Exception
  -- comments/comment.service.ts
  comment_user_not_found comment_article_not_found comment_persistence : Exception
  -- profiles/profile.service.ts
  profile_not_found self_follow : Exception
  -- auth/
  auth_conflict : ConflictField → Exception
  auth_persistence auth_invalid_credentials auth_invalid_token auth_logout_unavailable : Exception
  auth_login_rate_limit token_deny_list_unavailable : Exception
  -- jobs/welcome-mail-outbox-relay.ts, with the id of the outbox row
  welcome_mail_outbox_relay : Text → Exception

-- The status and the response of an error whose class extends HttpException; `none` for any other.
abbrev pub as_http : Exception → Option (ℕ × Value)
as_http (Exception.http status response) = some (status, response)
as_http Exception.article_not_found = some (404, errors_body (codes "article") (codes "not found"))
as_http Exception.article_viewer_not_found =
    some (401, errors_body (codes "token") (codes "is invalid"))
as_http Exception.article_update_user_not_found =
    some (401, errors_body (codes "token") (codes "is invalid"))
as_http Exception.article_update_article_not_found =
    some (404, errors_body (codes "article") (codes "not found"))
as_http Exception.article_update_forbidden =
    some (403, errors_body (codes "article") (codes "forbidden"))
as_http Exception.article_update_persistence =
    some (500, errors_body (codes "body") (codes "request failed"))
as_http Exception.article_favorite_user_not_found =
    some (401, errors_body (codes "token") (codes "is invalid"))
as_http Exception.article_favorite_article_not_found =
    some (404, errors_body (codes "article") (codes "not found"))
as_http Exception.comment_user_not_found =
    some (401, errors_body (codes "token") (codes "is invalid"))
as_http Exception.comment_article_not_found =
    some (404, errors_body (codes "article") (codes "not found"))
as_http Exception.comment_persistence =
    some (500, errors_body (codes "body") (codes "request failed"))
as_http _ = none
