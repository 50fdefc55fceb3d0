-- ===== src/Tests/Files.antt =====
-- Files and avatars.
use nest_js_tutorial.Base.{
  ℕ, ◌≡◌, refl, Bool, true, Text, codes, Option, none, some, List, [], ◌∷◌, ◌++◌, ◌==◌, find,
}
use nest_js_tutorial.Runtime.{Exception, Outcome, returned, thrown, M}
use nest_js_tutorial.Database.{World, Attachment}
use nest_js_tutorial.Database.Statements.{user_by_username}
use nest_js_tutorial.Database.Reliable.{steady_orm}
use nest_js_tutorial.Database.ReadOnly.{IsReadOnly}
use nest_js_tutorial.Serializers.{SerializedUser}
use nest_js_tutorial.Files.Storage.{resolve_path, absolute}
use nest_js_tutorial.Files.Storage.Laws.{resolve_path_lem}
use nest_js_tutorial.Files.Read.{StreamableFile, read_private_file, attachment_by_id, is_uuid}
use nest_js_tutorial.Files.Read.Laws.{IsRead, read_private_file_returned}
use nest_js_tutorial.Files.Avatar.{GeneratedUpload, upload_avatar}
use nest_js_tutorial.Tests.Data.{sample, result}

abbrev root : List Text
root = codes "private" ∷ codes "srv" ∷ []

resolve_path_example : resolve_path root (codes "a.png") ≡ some (absolute root ++ codes "/a.png")
unfolding ◌==◌
resolve_path_example = resolve_path_lem (codes "private") (codes "srv" ∷ []) (codes "a.png")

abbrev id : Text
id = codes "0a1b2c3d-0000-4000-8000-0123456789ab"

abbrev avatar : Attachment
avatar = record {
  id = id;
  owner_id = codes "u1";
  storage_key = codes "k.png";
  media_type = codes "image/png";
  byte_size = 2;
  created_at = 3;
}

abbrev stored : World (Unit {0})
stored = record { db = record sample { attachments = avatar ∷ [] }; env = tt }

abbrev two_bytes : Text → M (World (Unit {0})) (List ℕ)
two_bytes key w = (returned (1 ∷ 2 ∷ []), w)

two_bytes-IsReadOnly : (key : Text) → IsReadOnly (two_bytes key)
two_bytes-IsReadOnly key = record { keeps = λ w. refl }

abbrev no_file : StreamableFile
no_file = record { body = []; disposition = []; byte_length = 0; type = [] }

abbrev sent : StreamableFile
sent = result (read_private_file steady_orm two_bytes (codes "jane") id stored).0 no_file

read_private_file_example : IsRead two_bytes (codes "jane") id stored stored sent
unfolding read_private_file user_by_username find ◌==◌ attachment_by_id is_uuid
read_private_file_example =
    read_private_file_returned steady_orm two_bytes (codes "jane") id stored stored sent
      two_bytes-IsReadOnly refl

abbrev new : GeneratedUpload
new = record { uuid = codes "k2"; attachment_id = codes "f2"; marker_id = codes "f3"; now = 9 }

abbrev Steady : Type 0
Steady = World (Unit {0})

abbrev writes : Text → List ℕ → M Steady (Unit {0})
writes key bytes w = (returned tt, w)

abbrev removes : Text → M Steady (Unit {0})
removes key w = (returned tt, w)

abbrev fails : Text → List ℕ → M Steady (Unit {0})
fails key bytes w = (thrown (Exception.other_error (codes "ENOSPC")), w)

abbrev always : Unit {0} → Bool
always u = true

abbrev owner_jane : Unit {0} → Option Text
owner_jane u = some (codes "u1")

abbrev same : Unit {0} → Unit {0}
same u = u

abbrev same_owner : Text → Unit {0} → Unit {0}
same_owner owner u = u

abbrev jpeg_bytes : List ℕ
jpeg_bytes = 255 ∷ 216 ∷ 255 ∷ 0 ∷ []

abbrev uploaded : Outcome SerializedUser × Steady
uploaded =
    upload_avatar steady_orm writes removes always owner_jane same same_owner same new
      (codes "jane") (codes "t") (some jpeg_bytes) stored

abbrev no_user : SerializedUser
no_user = record { bio = none; email = []; image = none; token = []; username = [] }

abbrev shown : SerializedUser
shown = result uploaded.0 no_user
