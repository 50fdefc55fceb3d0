-- ===== src/Files/Avatar.antt =====
-- UserAvatarHandler (auth/user-avatar-handler.ts): the upload of an avatar, its file and its row, and
-- the removal of the avatars before it.
pub mod Noted
pub mod Laws
pub mod Rows
pub mod Stored
use nest_js_tutorial.Base.{
  ℕ, Bool, true, false, not, ◌&&◌, ◌||◌, Option, none, some, Text, codes, ◌==◌, ltb, List, [], ◌∷◌,
  ◌++◌, map, any, select, length, if◌then◌else◌,
}
use nest_js_tutorial.Runtime.{
  Exception, Outcome, returned, thrown, M, pure, throw, ◌>>=◌, ◌>>◌, recover, try_catch,
  errors_body,
}
use nest_js_tutorial.Database.{Db, User, Attachment, Orm, World, Statement, query, command}
use nest_js_tutorial.Database.Statements.{user_by_username, require, unique_violation}
use nest_js_tutorial.Serializers.{SerializedUser, serialize_user}
use nest_js_tutorial.Articles.Tags.{contains}
use nest_js_tutorial.Auth.CurrentUser.{save_user, invalid_token}
use nest_js_tutorial.Files.MediaTypes.{
  AvatarMediaType, media_type, extension, max_avatar_bytes, get_avatar_media_type,
}

abbrev pub invalid_avatar : Exception
invalid_avatar = Exception.http 422 (errors_body (codes "avatar") (codes "is invalid"))

-- What the test of an upload accepts: the buffer and its media type.
abbrev pub sized : List ℕ → Option AvatarMediaType → Option (List ℕ × AvatarMediaType)
sized buffer none = none
sized buffer (some type) =
    if ltb max_avatar_bytes (length buffer) then none else some (buffer, type)

unfoldable pub accepted_upload : Option (List ℕ) → Option (List ℕ × AvatarMediaType)
unfolding get_avatar_media_type
accepted_upload none = none
accepted_upload (some buffer) = sized buffer (get_avatar_media_type buffer)

-- createStorageKey
abbrev pub create_storage_key : Text → AvatarMediaType → Text
create_storage_key uuid type = uuid ++ codes "." ++ extension type

-- `findBy({ ownerId })`, with the columns that are kept.
unfoldable pub stale_attachments : Text → Db → List (Text × Text)
stale_attachments owner_id d =
    map (λ a. (Attachment.id a, Attachment.storage_key a))
      (select (λ a. Attachment.owner_id a == owner_id) d.attachments)

abbrev pub with_attachment : Attachment → Db → Db
with_attachment row d = record d { attachments = d.attachments ++ row ∷ [] }

-- `save` of a new attachment, under the unique constraint of the storage key.
unfoldable pub insert_attachment : Attachment → Statement (Unit {0})
insert_attachment row d =
    if any (λ a. Attachment.storage_key a == row.storage_key) d.attachments
    then (thrown (unique_violation (codes "attachments_storage_key_key")), d)
    else (returned tt, with_attachment row d)

abbrev pub with_image : Text → User → User
with_image id user = record user { image = some (codes "/api/files/" ++ id) }

-- `delete({ id: In(ids), ownerId })`
unfoldable pub delete_attachments : List Text → Text → Db → Db
delete_attachments ids owner_id d = record d {
  attachments =
      select (λ a. not (contains ids (Attachment.id a) && Attachment.owner_id a == owner_id))
        d.attachments;
}

-- What an upload is given from outside: the UUID of the key, the ids that the database makes, the time.
pub record GeneratedUpload : Type 0 where
  pub uuid : Text
  pub attachment_id : Text
  pub marker_id : Text
  pub now : ℕ

abbrev pub attachment_row : Text → ℕ → Text → List ℕ × AvatarMediaType → Text → Attachment
attachment_row id now owner_id (buffer, type) key = record {
  id = id;
  owner_id = owner_id;
  storage_key = key;
  media_type = media_type type;
  byte_size = length buffer;
  created_at = now;
}

-- The storage of the files, and the variables `storageWriteAttempted` and `cleanupOwnerId` of
-- `execute`, which outlive its transaction: they are kept in the environment, and are read and assigned
-- by these functions, whose laws are in Files.Avatar.Noted.
module _ (orm : Orm) (write_file : Text → List ℕ → M (World orm.Env) (Unit {0}))
    (remove_file : Text → M (World orm.Env) (Unit {0})) (attempted : orm.Env → Bool)
    (owner : orm.Env → Option Text) (set_attempted : orm.Env → orm.Env)
    (set_owner : Text → orm.Env → orm.Env) (reset : orm.Env → orm.Env) (new : GeneratedUpload) where
  -- An assignment to one of the variables.
  abbrev pub assign : (orm.Env → orm.Env) → M (World orm.Env) (Unit {0})
  assign f w = (returned tt, record w { env = f w.env })

  -- The callback of the transaction.
  unfoldable pub upload_in_transaction :
      Text → List ℕ × AvatarMediaType → Text → M (World orm.Env) (User × List (Text × Text))
  unfolding stale_attachments insert_attachment save_user
  upload_in_transaction username upload key = do
    current_user ← require orm (user_by_username username) invalid_token
    assign (set_owner current_user.id)
    stale ← orm.execute (query (stale_attachments current_user.id))
    assign set_attempted
    write_file key upload.0
    orm.execute
        (insert_attachment (attachment_row new.attachment_id new.now current_user.id upload key))
    orm.execute (command (save_user new.now (with_image new.attachment_id current_user)))
    pure (with_image new.attachment_id current_user, stale)

  -- The loop that removes the files of the avatars before: the ids of those that are gone.
  unfoldable pub remove_stale : List (Text × Text) → M (World orm.Env) (List Text)
  remove_stale [] = pure []
  remove_stale ((id, key) ∷ more) = do
    gone ← try_catch (remove_file key >> pure (id ∷ [])) (λ e. pure [])
    others ← remove_stale more
    pure (gone ++ others)

  -- `if (removedAttachmentIds.length > 0) try { … } catch { … }`
  unfoldable pub delete_removed : Text → List Text → M (World orm.Env) (Unit {0})
  unfolding delete_attachments
  delete_removed owner_id [] = pure tt
  delete_removed owner_id (id ∷ ids) =
      try_catch (orm.transaction (orm.execute (command (delete_attachments (id ∷ ids) owner_id))))
        (λ e. pure tt)

  unfoldable pub upload_body :
      Text → Text → List ℕ × AvatarMediaType → Text → M (World orm.Env) SerializedUser
  unfolding upload_in_transaction remove_stale delete_removed
  upload_body username token upload key = do
    stored ← orm.transaction (upload_in_transaction username upload key)
    removed ← remove_stale stored.1
    delete_removed (User.id stored.0) removed
    pure (serialize_user stored.0 token)

  -- The row that keeps the key of a file that could not be removed.
  abbrev pub marker : List ℕ × AvatarMediaType → Text → Text → Attachment
  marker upload key owner_id = attachment_row new.marker_id new.now owner_id upload key

  unfoldable pub save_marker :
      List ℕ × AvatarMediaType → Text → Option Text → M (World orm.Env) (Unit {0})
  unfolding insert_attachment
  save_marker upload key none = pure tt
  save_marker upload key (some owner_id) =
      try_catch (orm.transaction (orm.execute (insert_attachment (marker upload key owner_id))))
        (λ e. pure tt)

  -- The `catch` block, before it throws the error again.
  unfoldable pub clean_up : List ℕ × AvatarMediaType → Text → Bool → M (World orm.Env) (Unit {0})
  unfolding save_marker
  clean_up upload key false = pure tt
  clean_up upload key true =
      try_catch (remove_file key) (λ e w. save_marker upload key (owner w.env) w)

  abbrev pub fail_after_clean_up :
      List ℕ × AvatarMediaType → Text → Exception → M (World orm.Env) SerializedUser
  fail_after_clean_up upload key e w = (clean_up upload key (attempted w.env) >> throw e) w

  abbrev pub upload_accepted :
      Text → Text → Option (List ℕ × AvatarMediaType) → M (World orm.Env) SerializedUser
  upload_accepted username token none = throw invalid_avatar
  upload_accepted username token (some upload) =
      let key = create_storage_key new.uuid upload.1 in
      assign reset
      >> try_catch (upload_body username token upload key) (fail_after_clean_up upload key)

  -- UserAvatarHandler.execute
  unfoldable pub upload_avatar : Text → Text → Option (List ℕ) → M (World orm.Env) SerializedUser
  unfolding accepted_upload upload_body clean_up
  upload_avatar username token upload = upload_accepted username token (accepted_upload upload)
