-- ===== src/Files/Read/Laws.antt =====
-- Who can read a private file, and what is sent.
use nest_js_tutorial.Base.{
  ℕ, ◌≤◌, ◌≡◌, sym, ap, ◌∙◌, Bool, true, false, not, ◌||◌, Option, none, some, Text, ==_iff, eqb,
  eqb_iff, ltb, List, length, not-false, inl, inr, arith, if◌then◌else◌, Bool-cases,
}
use nest_js_tutorial.Runtime.{Exception, Outcome, returned, thrown, M, throw, recover}
use nest_js_tutorial.Runtime.Inversion.{after-returned, pure-returned, recover-returned}
use nest_js_tutorial.Database.{User, Attachment, Orm, World}
use nest_js_tutorial.Database.Statements.{user_by_username, or_throw}
use nest_js_tutorial.Database.Steps.{require-step, query-step, throw_if-step}
use nest_js_tutorial.Database.ReadOnly.{IsReadOnly}
use nest_js_tutorial.Database.Reliable.{IsReliable}
use nest_js_tutorial.Articles.Tags.{is_some}
use nest_js_tutorial.Files.MediaTypes.{max_avatar_bytes, extension_of}
use nest_js_tutorial.Files.Read.{
  is_uuid, can_read, file_not_found, read_error, StreamableFile, to_streamable_file,
  attachment_by_id, readable, read_private_file,
}

-- What has been read: an attachment of the user, of the stored type and size.
pub record IsRead {Env : Type 0} (read_file : Text → M (World Env) (List ℕ)) (username id : Text)
    (w w' : World Env) (r : StreamableFile) : Type 0 where
  pub user : User
  pub attachment : Attachment
  pub extension : Text
  pub reading : World Env
  pub known : user_by_username username w.db ≡ some user
  pub found : attachment_by_id id w.db ≡ some attachment
  pub owned : user.id ≡ attachment.owner_id
  pub is_image : extension_of attachment.media_type ≡ some extension
  pub small : attachment.byte_size ≤ max_avatar_bytes
  pub read : read_file attachment.storage_key reading ≡ (returned r.body, w')
  pub whole : length r.body ≡ attachment.byte_size
  pub shown : r ≡ to_streamable_file r.body attachment.media_type extension
  pub kept : w'.db ≡ w.db

readable-some :
    (user_id : Text) (o : Option Attachment) (a : Attachment)
    → readable user_id o ≡ some a
    → (o ≡ some a) × (user_id ≡ a.owner_id)
readable-some user_id none a h = cc
readable-some user_id (some b) a h = elim (Bool-cases (can_read user_id b)) [
  | inl own ↦
      let same : some b ≡ some a = sym (ap (λ t. if t then some b else none) own) ∙ h in
      (same, ground (arith, ==_iff user_id b.owner_id))
  | inr foreign ↦ ground arith
]

or_throw-found :
    {S A : Type 0} (o : Option A) (e : Exception) (s s' : S) (a : A)
    → or_throw o e s ≡ (returned a, s')
    → (o ≡ some a) × (s' ≡ s)
or_throw-found none e s s' a h = cc
or_throw-found (some b) e s s' a h = (cc, cc)

not_over : (n : ℕ) → ltb max_avatar_bytes n ≡ false → n ≤ max_avatar_bytes
not_over n h = ground arith

size_checked : (a b : Bool) → (not a || b) ≡ false → b ≡ false
size_checked true b h = h
size_checked false b h = cc

module _ (orm : Orm) (read_file : Text → M (World orm.Env) (List ℕ)) where
  -- Whatever the driver and the storage do, if a private file is sent then no row has changed, the
  -- attachment of this id belongs to the user, it is an image of at most 2 MiB, what is sent is what
  -- the storage has under its key and has the recorded size, and the type and the name of the response
  -- are those of the attachment; reading a file must change no row.
  pub read_private_file_returned :
      (username id : Text) (w w' : World orm.Env) (r : StreamableFile)
      → ((key : Text) → IsReadOnly (read_file key))
      → read_private_file orm read_file username id w ≡ (returned r, w')
      → IsRead read_file username id w w' r
  unfolding read_private_file
  read_private_file_returned username id w w' r reads h =
      let (is_id, h) = throw_if-step orm _ w (not (is_uuid id)) _ h in
      let (user, t, known, same, h) = require-step orm _ w (user_by_username username) _ h in
      let (t₂, same₂, h) = query-step orm _ t (attachment_by_id id) h in
      let o = attachment_by_id id t.db in
      let (a, t₃, some_a, h) =
        after-returned (or_throw (readable user.id o) file_not_found t₂) _ h in
      let (is_a, same₃) = or_throw-found (readable user.id o) file_not_found t₂ t₃ a some_a in
      let (found, owned) = readable-some user.id o a is_a in
      let (checked, h) =
        throw_if-step orm _ t₃
          (not (is_some (extension_of a.media_type)) || ltb max_avatar_bytes a.byte_size) _ h in
      let (body, t₄, run, h) =
        after-returned (recover (read_file a.storage_key t₃) (λ e. throw (read_error e))) _ h in
      let run = recover-returned (read_file a.storage_key t₃) read_error run in
      let (whole, h) = throw_if-step orm _ t₄ (not (eqb (length body) a.byte_size)) _ h in
      let (ext, t₅, has_ext, h) =
        after-returned (or_throw (extension_of a.media_type) file_not_found t₄) _ h in
      let (is_ext, same₅) =
        or_throw-found (extension_of a.media_type) file_not_found t₄ t₅ ext has_ext in
      let (shows, ends) = pure-returned (to_streamable_file body a.media_type ext) r t₅ w' h in
      let body_eq : r.body ≡ body = ap StreamableFile.body shows in
      let world : w' ≡ t₄ = ends ∙ same₅ in
      let kept : t₄.db ≡ t₃.db =
        ap (λ o. World.db (o.1)) (sym run) ∙ IsReadOnly.keeps (reads a.storage_key) t₃ in
      let over =
        size_checked (is_some (extension_of a.media_type)) (ltb max_avatar_bytes a.byte_size)
          checked in
      record {
        user = user;
        attachment = a;
        extension = ext;
        reading = t₃;
        known = known;
        found = ap (attachment_by_id id) (sym same) ∙ found;
        owned = owned;
        is_image = is_ext;
        small = not_over a.byte_size over;
        read = run ∙ ap₂' body t₄ r w' (sym body_eq) (sym world);
        whole = ap length body_eq ∙ (eqb_iff (length body) a.byte_size).0 (not-false _ whole);
        shown = shows ∙ ap (λ b. to_streamable_file b a.media_type ext) (sym body_eq);
        kept = ap World.db world ∙ kept ∙ ap World.db same₃ ∙ same₂ ∙ same;
      }
    where
      ap₂' :
          (body : List ℕ) (t : World orm.Env) (r : StreamableFile) (w : World orm.Env)
          → body ≡ r.body
          → t ≡ w
          → ◌≡◌ {A = Outcome (List ℕ) × World orm.Env} (returned body, t) (returned r.body, w)
      ap₂' body t r w p q i = (returned (p i), q i)

  -- With a driver that does not fail by itself, a file that is not there and a file of somebody else
  -- are answered alike.
  pub read_private_file_hidden :
      (reliable : IsReliable orm) (username id : Text) (w : World orm.Env) (user : User)
      → user_by_username username w.db ≡ some user
      → readable user.id (attachment_by_id id w.db) ≡ none
      → (read_private_file orm read_file username id w).0 ≡ thrown file_not_found
  unfolding read_private_file
  read_private_file_hidden reliable username id w user known hidden =
      elim (Bool-cases (is_uuid id)) [
        | inl is_id ↦ simp (reliable.execute_eq, is_id, known, hidden)
        | inr other ↦ simp other
      ]
