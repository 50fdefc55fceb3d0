-- ===== src/Tests/Avatars.antt =====
-- A failed upload of an avatar, over a driver that keeps local variables.
use nest_js_tutorial.Base.{
  ℕ, ◌≡◌, refl, ap, map, inl, inr, Bool, true, false, Text, codes, Option, none, some, List, [],
  ◌∷◌, ◌==◌, find, select,
}
use nest_js_tutorial.Runtime.{Exception, Outcome, returned, thrown, M}
use nest_js_tutorial.Database.{Db, Attachment, Orm, World, Committed}
use nest_js_tutorial.Database.Statements.{user_by_username}
use nest_js_tutorial.Database.ReadOnly.{IsReadOnly}
use nest_js_tutorial.Serializers.{SerializedUser}
use nest_js_tutorial.Files.MediaTypes.{get_avatar_media_type}
use nest_js_tutorial.Files.Avatar.{GeneratedUpload, upload_avatar, accepted_upload}
use nest_js_tutorial.Files.Avatar.Laws.{HasLocals, IsFailed, upload_avatar_thrown}
use nest_js_tutorial.Tests.Data.{sample}

-- The variables `storageWriteAttempted` and `cleanupOwnerId`.
abbrev Locals : Type 0
Locals = Bool × Option Text

abbrev commit : {A : Type 0} → Db → Outcome A × World Locals → Outcome A × World Locals
commit d (returned a, w) = (returned a, w)
commit d (thrown e, w) = (thrown e, record w { db = d })

commit_lem :
    {A : Type 0} (m : M (World Locals) A) (w : World Locals) (o : Outcome A × World Locals)
    → m w ≡ o
    → Committed m w (commit w.db o)
commit_lem m w (returned a, w') h = (w, w', h, refl, refl)
commit_lem m w (thrown e, w') h = refl

commit-env : {A : Type 0} (d : Db) (o : Outcome A × World Locals) → (commit d o).1.env ≡ o.1.env
commit-env d (returned a, w) = refl
commit-env d (thrown e, w) = refl

abbrev local_orm : Orm
local_orm = record {
  Env = Locals;
  execute = λ f w. ((f w.db).0, record { db = (f w.db).1; env = w.env });
  transaction = λ m w. commit w.db (m w);
  execute_lem = λ f w. inl refl;
  transaction_lem = λ m w. commit_lem m w (m w) refl;
}

abbrev attempted : Locals → Bool
attempted l = l.0

abbrev owner : Locals → Option Text
owner l = l.1

abbrev set_attempted : Locals → Locals
set_attempted l = (true, l.1)

abbrev set_owner : Text → Locals → Locals
set_owner x l = (l.0, some x)

abbrev reset : Locals → Locals
reset l = (false, none)

abbrev disk_error : Exception
disk_error = Exception.other_error (codes "ENOSPC")

-- A storage that neither writes nor removes.
abbrev fails : Text → List ℕ → M (World Locals) (Unit {0})
fails key bytes w = (thrown disk_error, w)

abbrev keeps : Text → M (World Locals) (Unit {0})
keeps key w = (thrown disk_error, w)

keeps-IsReadOnly : (key : Text) → IsReadOnly (keeps key)
keeps-IsReadOnly key = record { keeps = λ w. refl }

abbrev new : GeneratedUpload
new = record { uuid = codes "k2"; attachment_id = codes "f2"; marker_id = codes "f3"; now = 9 }

locals : HasLocals local_orm fails keeps attempted owner set_attempted set_owner reset new
locals = record {
  set_lem = λ x env. refl;
  attempted_lem = λ env. refl;
  reset_lem = λ env. refl;
  execute_kept = λ f w. refl;
  transaction_kept = λ m w. inr (w, refl, refl, ap owner (commit-env w.db (m w)));
  write_kept = λ key bytes w. refl;
  remove_kept = λ key w. refl;
}

abbrev jpeg_bytes : List ℕ
jpeg_bytes = 255 ∷ 216 ∷ 255 ∷ 0 ∷ []

abbrev stored : World Locals
stored = record { db = sample; env = (false, none) }

abbrev failed : Outcome SerializedUser × World Locals
failed =
    upload_avatar local_orm fails keeps attempted owner set_attempted set_owner reset new
      (codes "jane") (codes "t") (some jpeg_bytes) stored

upload_thrown_example :
    IsFailed local_orm fails keeps attempted owner set_attempted set_owner reset new
      (codes "jane")
      (accepted_upload (some jpeg_bytes))
      disk_error
      stored.db
      failed.1.db
unfolding upload_avatar accepted_upload get_avatar_media_type user_by_username find ◌==◌ select
upload_thrown_example =
    upload_avatar_thrown local_orm fails keeps attempted owner set_attempted set_owner reset new
      locals (codes "jane") (codes "t") (some jpeg_bytes) stored failed.1 disk_error
      keeps-IsReadOnly refl

marker_test : map (λ a. Attachment.storage_key a) failed.1.db.attachments ≡ codes "k2.jpg" ∷ []
unfolding upload_avatar accepted_upload get_avatar_media_type user_by_username find ◌==◌ select
marker_test = refl
