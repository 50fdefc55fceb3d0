-- ===== src/Files/Avatar/Stored.antt =====
-- What a successful upload of an avatar has stored.
use nest_js_tutorial.Base.{ℕ, Bool, Option, Text, List}
use nest_js_tutorial.Runtime.{M}
use nest_js_tutorial.Database.{User, Orm, World}
use nest_js_tutorial.Serializers.{SerializedUser}
use nest_js_tutorial.Files.MediaTypes.{AvatarMediaType}
use nest_js_tutorial.Files.Avatar.{
  GeneratedUpload, upload_in_transaction, remove_stale, delete_removed, upload_avatar,
}

module _ (orm : Orm) (write_file : Text → List ℕ → M (World orm.Env) (Unit {0}))
    (remove_file : Text → M (World orm.Env) (Unit {0})) (attempted : orm.Env → Bool)
    (owner : orm.Env → Option Text) (set_attempted : orm.Env → orm.Env)
    (set_owner : Text → orm.Env → orm.Env) (reset : orm.Env → orm.Env) (new : GeneratedUpload) where
  abbrev storing :
      Text → List ℕ × AvatarMediaType → Text → M (World orm.Env) (User × List (Text × Text))
  storing =
      upload_in_transaction orm write_file remove_file attempted owner set_attempted set_owner reset
        new

  abbrev removing : List (Text × Text) → M (World orm.Env) (List Text)
  removing =
      remove_stale orm write_file remove_file attempted owner set_attempted set_owner reset new

  abbrev deleting : Text → List Text → M (World orm.Env) (Unit {0})
  deleting =
      delete_removed orm write_file remove_file attempted owner set_attempted set_owner reset new

  abbrev avatar_route : Text → Text → Option (List ℕ) → M (World orm.Env) SerializedUser
  avatar_route =
      upload_avatar orm write_file remove_file attempted owner set_attempted set_owner reset new
