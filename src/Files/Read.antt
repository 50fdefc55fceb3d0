-- ===== src/Files/Read.antt =====
-- FileReadHandler (files/file-read-handler.ts) and AttachmentAccessPolicy
-- (attachments/attachment-access-policy.ts).
pub mod Laws
use nest_js_tutorial.Base.{
  ℕ, Bool, true, false, not, ◌&&◌, ◌||◌, Option, none, some, Text, codes, ◌==◌, same_option, eqb,
  leb, ltb, List, [], ◌∷◌, ◌++◌, find, length, if◌then◌else◌, is_digit,
}
use nest_js_tutorial.Runtime.{
  Exception, DriverFields, M, pure, throw, throw_if, ◌>>=◌, ◌>>◌, try_catch, errors_body,
}
use nest_js_tutorial.Database.{Db, User, Attachment, Orm, World, query}
use nest_js_tutorial.Database.Statements.{user_by_username, or_throw, require}
use nest_js_tutorial.Articles.Tags.{is_some}
use nest_js_tutorial.Files.MediaTypes.{max_avatar_bytes, extension_of}

-- Character classes of UUID_PATTERN, whose flag `i` takes both cases.
abbrev hex : ℕ → Bool
hex c = is_digit c || ((leb 97 c && leb c 102) || (leb 65 c && leb c 70))

abbrev dash : ℕ → Bool
dash c = eqb c 45

abbrev version : ℕ → Bool
version c = leb 49 c && leb c 56

abbrev variant : ℕ → Bool
variant c = (eqb c 56 || eqb c 57) || ((eqb c 97 || eqb c 98) || (eqb c 65 || eqb c 66))

abbrev hex₃ : List (ℕ → Bool) → List (ℕ → Bool)
hex₃ rest = hex ∷ hex ∷ hex ∷ rest

abbrev hex₄ : List (ℕ → Bool) → List (ℕ → Bool)
hex₄ rest = hex ∷ hex₃ rest

abbrev uuid_pattern : List (ℕ → Bool)
uuid_pattern = hex₄ (
    hex₄
      (dash ∷ hex₄ (dash ∷ version ∷ hex₃ (dash ∷ variant ∷ hex₃ (dash ∷ hex₄ (hex₄ (hex₄ [])))))))

abbrev matches : List (ℕ → Bool) → Text → Bool
matches [] [] = true
matches [] (c ∷ s) = false
matches (p ∷ ps) [] = false
matches (p ∷ ps) (c ∷ s) = p c && matches ps s

-- `UUID_PATTERN.test(id)`
unfoldable pub is_uuid : Text → Bool
is_uuid id = matches uuid_pattern id

-- canRead
abbrev pub can_read : Text → Attachment → Bool
can_read user_id attachment = user_id == attachment.owner_id

-- fileNotFound and fileReadFailed
abbrev pub file_not_found : Exception
file_not_found = Exception.http 404 (errors_body (codes "file") (codes "not found"))

abbrev pub file_read_failed : Exception
file_read_failed = Exception.http 500 (errors_body (codes "file") (codes "could not be read"))

-- isMissingFile, by the code of an error of the file system.
abbrev pub is_missing_file : Exception → Bool
is_missing_file (Exception.driver driver_error fields) =
    same_option fields.code (some (codes "ENOENT"))
is_missing_file e = false

abbrev pub read_error : Exception → Exception
read_error e = if is_missing_file e then file_not_found else file_read_failed

-- The StreamableFile of a response.
pub record StreamableFile : Type 0 where
  pub body : List ℕ
  pub disposition : Text
  pub byte_length : ℕ
  pub type : Text

-- toStreamableFile, whose extension is there.
abbrev pub to_streamable_file : List ℕ → Text → Text → StreamableFile
to_streamable_file body type extension = record {
  body = body;
  disposition = codes "inline; filename=\"avatar." ++ extension ++ codes "\"";
  byte_length = length body;
  type = type;
}

-- `findOneBy({ id })` on the attachments.
unfoldable pub attachment_by_id : Text → Db → Option Attachment
attachment_by_id id d = find (λ a. Attachment.id a == id) d.attachments

-- The attachment, if the user may read it.
abbrev pub readable : Text → Option Attachment → Option Attachment
readable user_id none = none
readable user_id (some a) = if can_read user_id a then some a else none

-- The storage of the files is a parameter: what it reads under a key.
module _ (orm : Orm) (read_file : Text → M (World orm.Env) (List ℕ)) where
  -- FileReadHandler.execute
  unfoldable pub read_private_file : Text → Text → M (World orm.Env) StreamableFile
  unfolding is_uuid extension_of
  read_private_file username attachment_id = do
    throw_if (not (is_uuid attachment_id)) file_not_found
    user ← require orm (user_by_username username) file_not_found
    found ← orm.execute (query (attachment_by_id attachment_id))
    attachment ← or_throw (readable user.id found) file_not_found
    throw_if
        (not (is_some (extension_of attachment.media_type))
          || ltb max_avatar_bytes attachment.byte_size)
        file_read_failed
    body ← try_catch (read_file attachment.storage_key) (λ e. throw (read_error e))
    throw_if (not (eqb (length body) attachment.byte_size)) file_read_failed
    extension ← or_throw (extension_of attachment.media_type) file_not_found
    pure (to_streamable_file body attachment.media_type extension)
