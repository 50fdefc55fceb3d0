-- ===== src/Files/Avatar/Laws.antt =====
-- What a failed upload of an avatar leaves behind.
use nest_js_tutorial.Base.{
  ℕ, ◌≡◌, refl, sym, ap, ◌∙◌, subst, ◌⊎◌, inl, inr, Bool, true, false, Option, none, some, Text,
  ◌==◌, List, [], ◌∷◌, ◌++◌, Bool-cases, any, map, select, ==_refl,
}
use nest_js_tutorial.Runtime.{
  Exception, Outcome, returned, thrown, M, pure, throw, after, recover, ◌>>=◌, ◌>>◌,
}
use nest_js_tutorial.Runtime.Inversion.{after-thrown, recover-thrown}
use nest_js_tutorial.Database.{Db, User, Attachment, Orm, World, Executed, Committed, command}
use nest_js_tutorial.Database.Transactions.{transaction-thrown}
use nest_js_tutorial.Database.Statements.{user_by_username}
use nest_js_tutorial.Database.ReadOnly.{IsReadOnly}
use nest_js_tutorial.Serializers.{SerializedUser, serialize_user}
use nest_js_tutorial.Files.MediaTypes.{AvatarMediaType}
use nest_js_tutorial.Files.Avatar.Noted.{IsLocal, IsNoted, transaction-IsNoted}
use nest_js_tutorial.Files.Avatar.{
  GeneratedUpload, invalid_avatar, with_attachment, accepted_upload, create_storage_key,
  delete_attachments, upload_in_transaction, remove_stale, delete_removed, upload_body,
  stale_attachments, insert_attachment, marker, save_marker, clean_up, upload_accepted,
  upload_avatar,
}

-- One row more, or none.
abbrev pub HasAtMost : Attachment → Db → Db → Type 0
HasAtMost row d d' = (d' ≡ d) ⊎ (d' ≡ with_attachment row d)

insert_attachment-cases : (row : Attachment) (d : Db) → HasAtMost row d (insert_attachment row d).1
unfolding insert_attachment
insert_attachment-cases row d =
    elim (Bool-cases (any (λ a. Attachment.storage_key a == row.storage_key) d.attachments)) [
      | inl taken ↦ inl (rw taken refl)
      | inr free ↦ inr (rw free refl)
    ]

-- The files of the user's avatars after one more row.
stale-with :
    (owner_id : Text) (row : Attachment) (d : Db)
    → (row.owner_id == owner_id) ≡ true
    → stale_attachments owner_id (with_attachment row d)
      ≡ stale_attachments owner_id d ++ (row.id, row.storage_key) ∷ []
unfolding stale_attachments select
stale-with owner_id row d h = listed d.attachments
  where
    listed :
        (rows : List Attachment)
        → map {B = Text × Text}
            (λ a. (Attachment.id a, Attachment.storage_key a))
            (select (λ a. Attachment.owner_id a == owner_id) (rows ++ row ∷ []))
          ≡ map {B = Text × Text}
              (λ a. (Attachment.id a, Attachment.storage_key a))
              (select (λ a. Attachment.owner_id a == owner_id) rows)
            ++ (row.id, row.storage_key) ∷ []
    listed [] = rw h refl
    listed (a ∷ rows) = elim (Bool-cases (a.owner_id == owner_id)) [
      | inl own ↦ rw own (ap (λ x. (a.id, a.storage_key) ∷ x) (listed rows))
      | inr other ↦ rw other (listed rows)
    ]

module _ (orm : Orm) where
  insert_kept :
      (row : Attachment) (w : World orm.Env) (o : Outcome (Unit {0}) × World orm.Env)
      → Executed (insert_attachment row) w o
      → HasAtMost row w.db o.1.db
  insert_kept row w (r, w') (inl same) =
      subst (HasAtMost row w.db) (sym (ap (λ p. p.1) same)) (insert_attachment-cases row w.db)
  insert_kept row w (r, w') (inr (e, failed, same)) = inl same

  insert_in_transaction :
      (row : Attachment) (w : World orm.Env) (o : Outcome (Unit {0}) × World orm.Env)
      → Committed (orm.execute (insert_attachment row)) w o
      → HasAtMost row w.db o.1.db
  insert_in_transaction row w (returned u, w') (v, v', run, start, end) =
      let it =
        insert_kept row v (orm.execute (insert_attachment row) v)
          (orm.execute_lem (insert_attachment row) v) in
      let stored : HasAtMost row v.db v'.db =
        subst (λ o. HasAtMost row v.db (World.db (o.1))) run it in
      subst (HasAtMost row w.db) end (subst (λ d. HasAtMost row d v'.db) start stored)
  insert_in_transaction row w (thrown e, w') same = inl same

  recovered_unit :
      {A : Type 0} (a : A) (o : Outcome A × World orm.Env) → (recover o (λ e. pure a)).1 ≡ o.1
  recovered_unit a (returned b, w) = refl
  recovered_unit a (thrown e, w) = refl

  after_throw :
      {A : Type 0} (B : Type 0) (o : Outcome A × World orm.Env) (e : Exception)
      → (after {B = B} o (λ a. throw e)).1 ≡ o.1
  after_throw B (returned a, w) e = refl
  after_throw B (thrown e', w) e = refl

module _ (orm : Orm) (write_file : Text → List ℕ → M (World orm.Env) (Unit {0}))
    (remove_file : Text → M (World orm.Env) (Unit {0})) (attempted : orm.Env → Bool)
    (owner : orm.Env → Option Text) (set_attempted : orm.Env → orm.Env)
    (set_owner : Text → orm.Env → orm.Env) (reset : orm.Env → orm.Env) (new : GeneratedUpload) where
  abbrev marker_row : List ℕ × AvatarMediaType → Text → Text → Attachment
  marker_row = marker orm write_file remove_file attempted owner set_attempted set_owner reset new

  -- The tables as before, or with the row that keeps the key of the file for this owner.
  abbrev pub HasMarkerAtMost : List ℕ × AvatarMediaType → Text → Option Text → Db → Db → Type 0
  HasMarkerAtMost upload key o d d' =
      (d' ≡ d)
      ⊎ ((owner_id : Text) × (o ≡ some owner_id)
          × (d' ≡ with_attachment (marker_row upload key owner_id) d))

  abbrev saving : List ℕ × AvatarMediaType → Text → Option Text → M (World orm.Env) (Unit {0})
  saving = save_marker orm write_file remove_file attempted owner set_attempted set_owner reset new

  save_marker-kept :
      (upload : List ℕ × AvatarMediaType) (key : Text) (o : Option Text) (w : World orm.Env)
      → HasMarkerAtMost upload key o w.db (saving upload key o w).1.db
  unfolding save_marker
  save_marker-kept upload key none w = inl refl
  save_marker-kept upload key (some owner_id) w =
      let row = marker_row upload key owner_id in
      let m = orm.execute (insert_attachment row) in
      let same = recovered_unit orm tt (orm.transaction m w) in
      elim (insert_in_transaction orm row w (orm.transaction m w) (orm.transaction_lem m w)) [
        | inl kept ↦ inl (ap World.db same ∙ kept)
        | inr added ↦ inr (owner_id, refl, ap World.db same ∙ added)
      ]

  -- What the removal of the file of a failed upload leaves, where `o` is the owner that has been noted.
  abbrev IsCleaned : List ℕ × AvatarMediaType → Text → Option Text → World orm.Env → Db → Type 0
  IsCleaned upload key o w d' =
      (d' ≡ w.db)
      ⊎ ((owner_id : Text) × (o ≡ some owner_id)
          × (d' ≡ with_attachment (marker_row upload key owner_id) w.db)
          × ((e : Exception) × ((remove_file key w).0 ≡ thrown e)))

  removed_or_marked :
      (upload : List ℕ × AvatarMediaType) (key : Text) (w : World orm.Env)
      (r : Outcome (Unit {0}) × World orm.Env)
      → remove_file key w ≡ r
      → r.1.db ≡ w.db
      → owner r.1.env ≡ owner w.env
      → IsCleaned upload key
          (owner w.env)
          w
          (recover r (λ e w. saving upload key (owner w.env) w)).1.db
  removed_or_marked upload key w (returned u, t) run h k = inl h
  removed_or_marked upload key w (thrown e, t) run h k =
      elim (save_marker-kept upload key (owner t.env) t) [
        | inl kept ↦ inl (kept ∙ h)
        | inr (owner_id, same, added) ↦ inr (
          owner_id,
          sym k ∙ same,
          added ∙ ap (with_attachment (marker_row upload key owner_id)) h,
          (e, ap (λ x. x.0) run),
        )
      ]

  abbrev cleaning : List ℕ × AvatarMediaType → Text → Bool → M (World orm.Env) (Unit {0})
  cleaning = clean_up orm write_file remove_file attempted owner set_attempted set_owner reset new

  clean_up-kept :
      (upload : List ℕ × AvatarMediaType) (key : Text) (b : Bool) (w : World orm.Env)
      → IsReadOnly (remove_file key)
      → owner (remove_file key w).1.env ≡ owner w.env
      → IsCleaned upload key (owner w.env) w (cleaning upload key b w).1.db
  unfolding clean_up
  clean_up-kept upload key false w h k = inl refl
  clean_up-kept upload key true w h k =
      removed_or_marked upload key w (remove_file key w) refl (h.keeps w) k

  abbrev removing : List (Text × Text) → M (World orm.Env) (List Text)
  removing =
      remove_stale orm write_file remove_file attempted owner set_attempted set_owner reset new

  abbrev deleting : Text → List Text → M (World orm.Env) (Unit {0})
  deleting =
      delete_removed orm write_file remove_file attempted owner set_attempted set_owner reset new

  -- The removal of the avatars before never throws.
  removal_caught :
      (id : Text) (o : Outcome (Unit {0}) × World orm.Env)
      → (gone : List Text) × (t : World orm.Env) × (recover
            (after o (λ u. pure (id ∷ [])))
            (λ e. pure [])
          ≡ (returned gone, t))
        × (t ≡ o.1)
  removal_caught id (returned u, w) = (id ∷ [], w, refl, refl)
  removal_caught id (thrown e, w) = ([], w, refl, refl)

  remove_stale-returns :
      (stale : List (Text × Text)) (w : World orm.Env)
      → (removed : List Text) × (t : World orm.Env) × (removing stale w ≡ (returned removed, t))
  unfolding remove_stale
  remove_stale-returns [] w = ([], w, refl)
  remove_stale-returns ((id, key) ∷ more) w =
      let (gone, t, caught, same) = removal_caught id (remove_file key w) in
      let (others, t', rest) = remove_stale-returns more t in
      (
        gone ++ others,
        t',
        ap (λ o. after o (λ g. removing more >>= λ others. pure (g ++ others))) caught
            ∙ ap (λ o. after o (λ others. pure (gone ++ others))) rest,
      )

  caught_pure :
      (o : Outcome (Unit {0}) × World orm.Env) → recover o (λ e. pure tt) ≡ (returned tt, o.1)
  caught_pure (returned u, w) = refl
  caught_pure (thrown e, w) = refl

  delete_removed-returns :
      (owner_id : Text) (ids : List Text) (w : World orm.Env)
      → (t : World orm.Env) × (deleting owner_id ids w ≡ (returned tt, t))
  unfolding delete_removed
  delete_removed-returns owner_id [] w = (w, refl)
  delete_removed-returns owner_id (id ∷ ids) w =
      let m = orm.transaction (orm.execute (command (delete_attachments (id ∷ ids) owner_id))) in
      ((m w).1, caught_pure (m w))

  abbrev uploading :
      Text → Text → List ℕ × AvatarMediaType → Text → M (World orm.Env) SerializedUser
  uploading =
      upload_body orm write_file remove_file attempted owner set_attempted set_owner reset new

  -- The part of the upload after its transaction.
  abbrev finishing : Text → User × List (Text × Text) → M (World orm.Env) SerializedUser
  finishing token stored = do
    removed ← removing stored.1
    deleting (User.id stored.0) removed
    pure (serialize_user stored.0 token)

  finishing-returns :
      (token : Text) (stored : User × List (Text × Text)) (w : World orm.Env)
      → (t : World orm.Env) × (finishing token stored w
          ≡ (returned (serialize_user stored.0 token), t))
  finishing-returns token stored w =
      let (removed, t, gone) = remove_stale-returns stored.1 w in
      let (t', done) = delete_removed-returns (User.id stored.0) removed t in
      (
        t',
        ap
              (λ o.
                after o
                  (λ ids. deleting (User.id stored.0) ids >> pure (serialize_user stored.0 token)))
              gone
            ∙ ap (λ o. after o (λ u. pure (serialize_user stored.0 token))) done,
      )

  abbrev storing :
      Text → List ℕ × AvatarMediaType → Text → M (World orm.Env) (User × List (Text × Text))
  storing =
      upload_in_transaction orm write_file remove_file attempted owner set_attempted set_owner reset
        new

  upload_body-thrown :
      (username token : Text) (upload : List ℕ × AvatarMediaType) (key : Text)
      (w w' : World orm.Env) (e : Exception)
      → uploading username token upload key w ≡ (thrown e, w')
      → (w'.db ≡ w.db) × (w' ≡ (orm.transaction (storing username upload key) w).1)
  unfolding upload_body
  upload_body-thrown username token upload key w w' e h =
      elim (after-thrown (orm.transaction (storing username upload key) w) (finishing token) h) [
        | inl failed ↦ (
          transaction-thrown orm (storing username upload key) w failed,
          sym (ap (λ x. x.1) failed),
        )
        | inr (stored, t, ran, rest) ↦ let (t', done) = finishing-returns token stored t in cc
      ]

  abbrev pub HasLocals : Type 1
  HasLocals = IsLocal orm write_file remove_file attempted owner set_attempted set_owner reset new

  abbrev IsNotedHere : HasLocals → Text → Db → Option Text → Type 0
  IsNotedHere = IsNoted orm write_file remove_file attempted owner set_attempted set_owner reset new

  abbrev avatar_route : Text → Text → Option (List ℕ) → M (World orm.Env) SerializedUser
  avatar_route =
      upload_avatar orm write_file remove_file attempted owner set_attempted set_owner reset new

  -- The row that a failed upload leaves for the next one: it has the user as its owner, and the key of
  -- a file that could not be removed, which is then among the files that the user's next upload
  -- removes.
  abbrev pub IsMarked : Text → List ℕ × AvatarMediaType → Text → Db → Db → Type 0
  IsMarked username upload key d d' =
      (u : User) × (user_by_username username d ≡ some u)
      × (d' ≡ with_attachment (marker_row upload key u.id) d)
      × ((t : World orm.Env) × (e : Exception) × ((remove_file key t).0 ≡ thrown e))
      × (stale_attachments u.id d' ≡ stale_attachments u.id d ++ (new.marker_id, key) ∷ [])

  -- The two ways in which an upload throws.
  abbrev pub IsFailed : Text → Option (List ℕ × AvatarMediaType) → Exception → Db → Db → Type 0
  IsFailed username none e d d' = (e ≡ invalid_avatar) × (d' ≡ d)
  IsFailed username (some upload) e d d' =
      (d' ≡ d) ⊎ IsMarked username upload (create_storage_key new.uuid upload.1) d d'

  marked :
      (local : HasLocals) (username : Text) (upload : List ℕ × AvatarMediaType) (key : Text)
      (o : Option Text) (w : World orm.Env) (d' : Db)
      → IsNotedHere local username w.db o
      → IsCleaned upload key o w d'
      → (d' ≡ w.db) ⊎ IsMarked username upload key w.db d'
  marked local username upload key o w d' noted (inl kept) = inl kept
  marked local username upload key o w d' (inl nobody) (inr (owner_id, is_owner, added, failed)) =
      cc
  marked local username upload key o w d' (inr (u, found, is_user))
        (inr (owner_id, is_owner, added, (e, failed))) =
      let some_same : some owner_id ≡ some u.id = sym is_owner ∙ is_user in
      let same : owner_id ≡ u.id = cc in
      let stored = added ∙ ap (λ i. with_attachment (marker_row upload key i) w.db) same in
      inr (
        u,
        found,
        stored,
        (w, e, failed),
        ap (stale_attachments u.id) stored
            ∙ stale-with u.id (marker_row upload key u.id) w.db (==_refl u.id),
      )

  accepted-thrown :
      (local : HasLocals) (username token : Text) (upload : Option (List ℕ × AvatarMediaType))
      (w w' : World orm.Env) (e : Exception)
      → ((key : Text) → IsReadOnly (remove_file key))
      → upload_accepted orm write_file remove_file attempted owner set_attempted set_owner reset new
          username token upload w
        ≡ (thrown e, w')
      → IsFailed username upload e w.db w'.db
  accepted-thrown local username token none w w' e reads h = (cc, cc)
  accepted-thrown local username token (some upload) w w' e reads h =
      let key = create_storage_key new.uuid upload.1 in
      let start : World orm.Env = record w { env = reset w.env } in
      let (e', t, run, h) = recover-thrown (uploading username token upload key start) _ h in
      let (same, is_t) = upload_body-thrown username token upload key start t e' run in
      let ends : (cleaning upload key (attempted t.env) t).1 ≡ w' =
        sym (after_throw orm SerializedUser (cleaning upload key (attempted t.env) t) e')
        ∙ ap (λ o. o.1) h in
      let noted : IsNotedHere local username t.db (owner t.env) =
        subst (λ d. IsNotedHere local username d (owner t.env)) (sym same)
          (subst (λ x. IsNotedHere local username w.db (owner (World.env x))) (sym is_t)
            (transaction-IsNoted orm write_file remove_file attempted owner set_attempted set_owner
              reset new local username upload key start (local.reset_lem w.env))) in
      let cleaned =
        clean_up-kept upload key (attempted t.env) t (reads key) (local.remove_kept key t) in
      subst (λ x. (World.db x ≡ w.db) ⊎ IsMarked username upload key w.db (World.db x)) ends
        (subst
          (λ d.
            ((cleaning upload key (attempted t.env) t).1.db ≡ d)
            ⊎ IsMarked username upload key d (cleaning upload key (attempted t.env) t).1.db)
          same (marked local username upload key (owner t.env) t _ noted cleaned))

  -- Whatever the driver and the storage do, an upload that fails has changed no row, but for one row
  -- more: an attachment of the user with the key of the new file, where that file could not be removed,
  -- and the user's next upload finds this key among the files that it removes; an upload that is
  -- refused for its content has done nothing. Removing a file must change no row, and the variables of
  -- the code must be local.
  pub upload_avatar_thrown :
      (local : HasLocals) (username token : Text) (upload : Option (List ℕ)) (w w' : World orm.Env)
      (e : Exception)
      → ((key : Text) → IsReadOnly (remove_file key))
      → avatar_route username token upload w ≡ (thrown e, w')
      → IsFailed username (accepted_upload upload) e w.db w'.db
  unfolding upload_avatar
  upload_avatar_thrown local username token upload w w' e reads h =
      accepted-thrown local username token (accepted_upload upload) w w' e reads h
