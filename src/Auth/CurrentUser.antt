-- ===== src/Auth/CurrentUser.antt =====
-- UserService (users/user.service.ts), AuthService.currentUser, AuthCurrentUserHandler and
-- AuthUpdateUserHandler (auth/), with UpdateUserDto of common/dto/user-auth.dto.ts.
pub mod Laws
use nest_js_tutorial.Base.{
  ℕ, Bool, true, false, ◌&&◌, Option, none, some, Text, codes, ◌==◌, eqb, same_option, List, [],
  ◌∷◌, map, if◌then◌else◌,
}
use nest_js_tutorial.Runtime.{
  Exception, Value, M, pure, throw, ◌>>=◌, ◌>>◌, try_catch, errors_body, as_http,
}
use nest_js_tutorial.Database.{Db, User, Orm, World, query, command}
use nest_js_tutorial.Database.Statements.{user_by_username, or_throw}
use nest_js_tutorial.Serializers.{SerializedUser, serialize_user}

-- UpdateUserRequest: each field is left out, or given as a string or null.
pub record UpdateUserRequest : Type 0 where
  pub bio : Option (Option Text)
  pub image : Option (Option Text)

-- `value === '' ? null : value`, the transform of both fields.
unfoldable pub empty_to_null : Option (Option Text) → Option (Option Text)
empty_to_null none = none
empty_to_null (some none) = some none
empty_to_null (some (some [])) = some none
empty_to_null (some (some (c ∷ s))) = some (some (c ∷ s))

unfoldable pub update_user_dto : UpdateUserRequest → UpdateUserRequest
unfolding empty_to_null
update_user_dto request = record {
  bio = empty_to_null request.bio;
  image = empty_to_null request.image;
}

-- `if (value !== undefined) field = value;`
abbrev pub assigned : Option (Option Text) → Option Text → Option Text
assigned none old = old
assigned (some value) old = value

unfoldable pub updated_user : UpdateUserRequest → User → User
updated_user update user = record user {
  bio = assigned update.bio user.bio;
  image = assigned update.image user.image;
}

-- `save` of a loaded user whose bio and image may have changed: it writes these two columns, and the
-- time of the update if either differs from the row.
abbrev saved_row : ℕ → User → User → User
saved_row now user row =
    if row.id == user.id
    then (if same_option row.bio user.bio && same_option row.image user.image
        then row
        else record row { bio = user.bio; image = user.image; updated_at = now })
    else row

unfoldable pub save_user : ℕ → User → Db → Db
save_user now user d = record d { users = map (saved_row now user) d.users }

abbrev pub request_failed : Exception
request_failed = Exception.http 500 (errors_body (codes "body") (codes "request failed"))

abbrev pub invalid_token : Exception
invalid_token = Exception.http 401 (errors_body (codes "token") (codes "is invalid"))

-- `error instanceof UnauthorizedException`: the HttpExceptions of status 401.
abbrev has_status : ℕ → Option (ℕ × Value) → Bool
has_status code none = false
has_status code (some (status, response)) = eqb status code

abbrev pub is_unauthorized : Exception → Bool
is_unauthorized e = has_status 401 (as_http e)

-- The `catch` block of AuthUpdateUserHandler.
unfoldable pub update_user_error : Exception → Exception
update_user_error e = if is_unauthorized e then e else request_failed

-- The `catch` block of AuthCurrentUserHandler.
unfoldable pub current_user_error : Exception → Exception
current_user_error Exception.auth_invalid_token = invalid_token
current_user_error e = e

-- The time of an update comes from the database, a new token from JWT.
module _ (orm : Orm) (now : ℕ) (issue : Text → M (World orm.Env) Text) where
  unfoldable pub save_found : UpdateUserRequest → Option User → M (World orm.Env) (Option User)
  unfolding save_user updated_user
  save_found update none = pure none
  save_found update (some user) = do
    orm.execute (command (save_user now (updated_user update user)))
    pure (some (updated_user update user))

  -- UserService.updateCurrentUser
  unfoldable pub update_current_user : Text → UpdateUserRequest → M (World orm.Env) (Option User)
  unfolding save_found
  update_current_user username update = do
    user ← orm.execute (query (user_by_username username))
    save_found update user

  unfoldable pub update_user_body : Text → UpdateUserRequest → M (World orm.Env) SerializedUser
  unfolding update_current_user
  update_user_body subject update = do
    token ← issue subject
    found ← update_current_user subject update
    user ← or_throw found invalid_token
    pure (serialize_user user token)

  -- AuthUpdateUserHandler.execute
  unfoldable pub update_user : Text → UpdateUserRequest → M (World orm.Env) SerializedUser
  unfolding update_user_body update_user_error
  update_user subject update =
      try_catch (update_user_body subject update) (λ e. throw (update_user_error e))

module _ (orm : Orm) where
  -- AuthService.currentUser
  unfoldable pub current_user : Text → M (World orm.Env) User
  current_user username = do
    found ← orm.execute (query (user_by_username username))
    or_throw found Exception.auth_invalid_token

  -- AuthCurrentUserHandler.execute
  unfoldable pub current_user_route : Text → Text → M (World orm.Env) SerializedUser
  unfolding current_user current_user_error
  current_user_route subject token =
      try_catch (current_user subject >>= λ user. pure (serialize_user user token))
        (λ e. throw (current_user_error e))
