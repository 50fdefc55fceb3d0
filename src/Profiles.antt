-- ===== src/Profiles.antt =====
-- ProfileService and ProfilesController (profiles/).
pub mod Laws
use nest_js_tutorial.Base.{
  Bool, true, false, not, ◌&&◌, Option, none, some, Text, codes, ◌==◌, [], ◌∷◌, ◌++◌, select, any,
  if◌then◌else◌,
}
use nest_js_tutorial.Runtime.{
  Exception, M, pure, throw, throw_if, ◌>>=◌, ◌>>◌, try_catch, errors_body,
}
use nest_js_tutorial.Database.{Db, User, UserFollow, Orm, World, query, command}
use nest_js_tutorial.Database.Statements.{user_by_username, or_throw}
use nest_js_tutorial.Serializers.{SerializedAuthor, serialize_profile}

abbrev pub is_follow : Text → Text → UserFollow → Bool
is_follow follower_id following_id f =
    f.follower_id == follower_id && f.following_id == following_id

-- `insert().into(UserFollow).values({ followerId, followingId }).orIgnore()`
unfoldable pub add_follow : Text → Text → Db → Db
add_follow follower_id following_id d =
    if any (is_follow follower_id following_id) d.user_follows then d else record d {
      user_follows =
          d.user_follows ++ record { follower_id = follower_id; following_id = following_id } ∷ [];
    }

-- `delete({ followerId, followingId })`
unfoldable pub remove_follow : Text → Text → Db → Db
remove_follow follower_id following_id d = record d {
  user_follows = select (λ f. not (is_follow follower_id following_id f)) d.user_follows;
}

-- `follower?.id === following.id`
abbrev pub is_same_user : Option User → User → Bool
is_same_user none following = false
is_same_user (some follower) following = follower.id == following.id

abbrev pub profile_error : Text → Exception
profile_error message = Exception.http 404 (errors_body (codes "profile") message)

-- The `catch` blocks of followProfile and of unfollowProfile.
unfoldable pub follow_error : Exception → Exception
follow_error Exception.profile_not_found = profile_error (codes "not found")
follow_error Exception.self_follow =
    Exception.http 422 (errors_body (codes "profile") (codes "cannot follow yourself"))
follow_error e = e

unfoldable pub unfollow_error : Exception → Exception
unfollow_error Exception.profile_not_found = profile_error (codes "not found")
unfollow_error e = e

module _ (orm : Orm) where
  -- ProfileService.follow. The two lookups of `Promise.all` only read.
  unfoldable pub follow : Text → Text → M (World orm.Env) User
  follow follower_username username = do
    follower ← orm.execute (query (user_by_username follower_username))
    found ← orm.execute (query (user_by_username username))
    following ← or_throw found Exception.profile_not_found
    throw_if (is_same_user follower following) Exception.self_follow
    follower ← or_throw follower Exception.profile_not_found
    orm.execute (command (add_follow follower.id following.id))
    pure following

  -- ProfileService.unfollow
  unfoldable pub unfollow : Text → Text → M (World orm.Env) User
  unfollow follower_username username = do
    follower ← orm.execute (query (user_by_username follower_username))
    found ← orm.execute (query (user_by_username username))
    following ← or_throw found Exception.profile_not_found
    follower ← or_throw follower Exception.profile_not_found
    orm.execute (command (remove_follow follower.id following.id))
    pure following

  -- ProfilesController.getProfile
  unfoldable pub get_profile : Text → M (World orm.Env) SerializedAuthor
  get_profile username = do
    found ← orm.execute (query (user_by_username username))
    user ← or_throw found (profile_error (codes "not found"))
    pure (serialize_profile user false)

  -- ProfilesController.followProfile
  unfoldable pub follow_profile : Text → Text → M (World orm.Env) SerializedAuthor
  unfolding follow follow_error
  follow_profile subject username =
      try_catch (follow subject username >>= λ user. pure (serialize_profile user true))
        (λ e. throw (follow_error e))

  -- ProfilesController.unfollowProfile
  unfoldable pub unfollow_profile : Text → Text → M (World orm.Env) SerializedAuthor
  unfolding unfollow unfollow_error
  unfollow_profile subject username =
      try_catch (unfollow subject username >>= λ user. pure (serialize_profile user false))
        (λ e. throw (unfollow_error e))
