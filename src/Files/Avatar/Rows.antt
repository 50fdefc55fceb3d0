-- ===== src/Files/Avatar/Rows.antt =====
-- The rows of the attachments under an upload of an avatar.
use nest_js_tutorial.Base.{
  ℕ, ◌≡◌, refl, sym, ap, ◌∙◌, inl, inr, Bool, false, not, ◌&&◌, some, Text, codes, ◌==◌, ==_refl,
  ==_iff, List, [], ◌∷◌, ◌++◌, map, any, find, select, Bool-cases, if◌then◌else◌, arith,
}
use nest_js_tutorial.Runtime.{returned, thrown}
use nest_js_tutorial.Database.{Db, User, Attachment}
use nest_js_tutorial.Database.Statements.{user_by_username, unique_violation}
use nest_js_tutorial.Serializers.{SerializedUser, serialize_user}
use nest_js_tutorial.Articles.Tags.{contains}
use nest_js_tutorial.Auth.CurrentUser.{save_user}
use nest_js_tutorial.Files.Read.{attachment_by_id}
use nest_js_tutorial.Files.MediaTypes.{AvatarMediaType}
use nest_js_tutorial.Files.Avatar.{
  GeneratedUpload, with_attachment, with_image, insert_attachment, attachment_row,
  create_storage_key, delete_attachments,
}

-- The attachments of everybody else.
abbrev pub of_others : Text → List Attachment → List Attachment
of_others owner_id rows = select (λ a. not (Attachment.owner_id a == owner_id)) rows

abbrev pub has_id : Text → List Attachment → Bool
has_id id rows = any (λ a. Attachment.id a == id) rows

module _ (row : Attachment) (ids : List Text) (owner_id : Text) where
  abbrev keeps_row : Attachment → Bool
  keeps_row a = not (contains ids (Attachment.id a) && Attachment.owner_id a == owner_id)

  -- The new row is still there after the others have been removed.
  find_new :
      (rows : List Attachment)
      → has_id row.id rows ≡ false
      → contains ids row.id ≡ false
      → find (λ a. Attachment.id a == row.id) (select keeps_row (rows ++ row ∷ [])) ≡ some row
  unfolding find select
  find_new [] h k = rw (k) (rw (==_refl row.id) refl)
  find_new (a ∷ rows) h k = ground (arith, find_new rows)

  others_kept :
      (rows : List Attachment)
      → row.owner_id ≡ owner_id
      → of_others owner_id (select keeps_row (rows ++ row ∷ [])) ≡ of_others owner_id rows
  unfolding select
  others_kept [] h = ground (arith, ==_iff row.owner_id owner_id)
  others_kept (a ∷ rows) h = ground (arith, others_kept rows h)

abbrev keeps_row' : Text → Attachment → Bool
keeps_row' owner_id a = not (false && Attachment.owner_id a == owner_id)

-- No ids, no deletion.
select_all : (owner_id : Text) (rows : List Attachment) → select (keeps_row' owner_id) rows ≡ rows
unfolding select
select_all owner_id [] = refl
select_all owner_id (a ∷ rows) = ap (λ x. a ∷ x) (select_all owner_id rows)

pub stale_ids :
    (owner_id id : Text) (rows : List Attachment)
    → has_id id rows ≡ false
    → any
        (λ (p : Text × Text). p.0 == id)
        (map
          (λ a. (Attachment.id a, Attachment.storage_key a))
          (select (λ a. Attachment.owner_id a == owner_id) rows))
      ≡ false
unfolding select
stale_ids owner_id id [] h = refl
stale_ids owner_id id (a ∷ rows) h = ground (arith, stale_ids owner_id id rows)

pub insert_attachment-returned :
    (row : Attachment) (d d' : Db)
    → insert_attachment row d ≡ (returned tt, d')
    → d' ≡ with_attachment row d
unfolding insert_attachment
insert_attachment-returned row d d' h =
    elim (Bool-cases (any (λ a. Attachment.storage_key a == row.storage_key) d.attachments)) [
      | inl taken ↦
          let bad =
            sym (
              ap
                (λ b.
                  if b
                  then (thrown (unique_violation (codes "attachments_storage_key_key")), d)
                  else (returned tt, with_attachment row d))
                taken)
            ∙ h in
          cc
      | inr free ↦
          let good =
            sym (
              ap
                (λ b.
                  if b
                  then (thrown (unique_violation (codes "attachments_storage_key_key")), d)
                  else (returned tt, with_attachment row d))
                free)
            ∙ h in
          cc
    ]

-- The image, the row of the attachment and the body of an upload, and what has not changed.
pub record IsUploaded (new : GeneratedUpload) (username token : Text)
    (upload : List ℕ × AvatarMediaType) (d d' : Db) (r : SerializedUser) : Type 0 where
  pub user : User
  pub known : user_by_username username d ≡ some user
  pub shown : r ≡ serialize_user (with_image new.attachment_id user) token
  pub stored :
      attachment_by_id new.attachment_id d'
      ≡ some (
          attachment_row new.attachment_id new.now user.id upload
            (create_storage_key new.uuid upload.1))
  pub users : d'.users ≡ (save_user new.now (with_image new.attachment_id user) d).users
  pub others : of_others user.id d'.attachments ≡ of_others user.id d.attachments
  pub tables : d' ≡ record d { users = d'.users; attachments = d'.attachments }

-- The tables after the transaction, and after the removal of some rows.
abbrev pub committed : GeneratedUpload → List ℕ × AvatarMediaType → User → Db → Db
committed new upload user d = save_user new.now (with_image new.attachment_id user) (
    with_attachment
      (attachment_row new.attachment_id new.now user.id upload
        (create_storage_key new.uuid upload.1))
      d)

pub removed-IsUploaded :
    (new : GeneratedUpload) (username token : Text) (upload : List ℕ × AvatarMediaType) (d : Db)
    (user : User) (ids : List Text)
    → user_by_username username d ≡ some user
    → has_id new.attachment_id d.attachments ≡ false
    → contains ids new.attachment_id ≡ false
    → IsUploaded new username token upload d
        (delete_attachments ids user.id (committed new upload user d))
        (serialize_user (with_image new.attachment_id user) token)
unfolding delete_attachments save_user attachment_by_id
removed-IsUploaded new username token upload d user ids known fresh kept =
    let row =
      attachment_row new.attachment_id new.now user.id upload
        (create_storage_key new.uuid upload.1) in
    record {
      user = user;
      known = known;
      shown = refl;
      stored = find_new row ids user.id d.attachments fresh kept;
      users = refl;
      others = others_kept row ids user.id d.attachments refl;
      tables = refl;
    }

pub nothing_removed : (owner_id : Text) (d : Db) → delete_attachments [] owner_id d ≡ d
unfolding delete_attachments
nothing_removed owner_id d i = record d { attachments = select_all owner_id d.attachments i }
