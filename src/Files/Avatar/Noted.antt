-- ===== src/Files/Avatar/Noted.antt =====
-- The variables that outlive the transaction of an upload: whom they take the file to belong to.
use nest_js_tutorial.Base.{
  ℕ, ◌≡◌, refl, sym, ap, ◌∙◌, subst, ◌⊎◌, inl, inr, Bool, Option, none, some, Text, List,
}
use nest_js_tutorial.Runtime.{Exception, Outcome, returned, thrown, M, pure, after, ◌>>=◌, ◌>>◌}
use nest_js_tutorial.Database.{Db, User, Orm, World, Statement, command, query}
use nest_js_tutorial.Database.Statements.{user_by_username, require, require-returned, or_throw}
use nest_js_tutorial.Auth.CurrentUser.{save_user, invalid_token}
use nest_js_tutorial.Files.MediaTypes.{AvatarMediaType}
use nest_js_tutorial.Files.Avatar.{
  GeneratedUpload, upload_in_transaction, stale_attachments, assign, attachment_row, with_image,
  insert_attachment,
}

module _ (orm : Orm) (write_file : Text → List ℕ → M (World orm.Env) (Unit {0}))
    (remove_file : Text → M (World orm.Env) (Unit {0})) (attempted : orm.Env → Bool)
    (owner : orm.Env → Option Text) (set_attempted : orm.Env → orm.Env)
    (set_owner : Text → orm.Env → orm.Env) (reset : orm.Env → orm.Env) (new : GeneratedUpload) where
  abbrev storing :
      Text → List ℕ × AvatarMediaType → Text → M (World orm.Env) (User × List (Text × Text))
  storing =
      upload_in_transaction orm write_file remove_file attempted owner set_attempted set_owner reset
        new

  -- The variables of `execute` are local: what they are set to stays, whatever the driver and the
  -- storage do, also where a transaction is taken back. A transaction may fail before its callback has
  -- begun.
  pub record IsLocal : Type 1 where
    pub set_lem : (x : Text) (env : orm.Env) → owner (set_owner x env) ≡ some x
    pub attempted_lem : (env : orm.Env) → owner (set_attempted env) ≡ owner env
    pub reset_lem : (env : orm.Env) → owner (reset env) ≡ none
    pub execute_kept :
        {A : Type 0} (f : Statement A) (w : World orm.Env)
        → owner (orm.execute f w).1.env ≡ owner w.env
    pub transaction_kept :
        {A : Type 0} (m : M (World orm.Env) A) (w : World orm.Env)
        → (owner (orm.transaction m w).1.env ≡ owner w.env)
          ⊎ ((v : World orm.Env) × (v.db ≡ w.db)
              × (owner v.env ≡ owner w.env)
              × (owner (orm.transaction m w).1.env ≡ owner (m v).1.env))
    pub write_kept :
        (key : Text) (bytes : List ℕ) (w : World orm.Env)
        → owner (write_file key bytes w).1.env ≡ owner w.env
    pub remove_kept :
        (key : Text) (w : World orm.Env) → owner (remove_file key w).1.env ≡ owner w.env

  module _ (local : IsLocal) where
    after-kept :
        {A B : Type 0} (o : Outcome A × World orm.Env) (f : A → M (World orm.Env) B)
        (x : Option Text)
        → owner o.1.env ≡ x
        → ((a : A) (t : World orm.Env) → owner t.env ≡ x → owner (f a t).1.env ≡ x)
        → owner (after o f).1.env ≡ x
    after-kept (returned a, t) f x h k = k a t h
    after-kept (thrown e, t) f x h k = h

    -- The noted owner is the user, if any has been noted.
    abbrev pub IsNoted : Text → Db → Option Text → Type 0
    IsNoted username d o =
        (o ≡ none) ⊎ ((u : User) × (user_by_username username d ≡ some u) × (o ≡ some u.id))

    abbrev setting : (orm.Env → orm.Env) → M (World orm.Env) (Unit {0})
    setting = assign orm write_file remove_file attempted owner set_attempted set_owner reset new

    or_throw-kept :
        {A : Type 0} (o : Option A) (e : Exception) (w : World orm.Env) → (or_throw o e w).1 ≡ w
    or_throw-kept none e w = refl
    or_throw-kept (some a) e w = refl

    require-kept :
        (f : Db → Option User) (e : Exception) (w : World orm.Env)
        → owner (require orm f e w).1.env ≡ owner w.env
    require-kept f e w =
        after-kept (orm.execute (query f) w) (λ o. or_throw o e) (owner w.env)
          (local.execute_kept (query f) w)
          (λ o t h. ap (λ x. owner (World.env x)) (or_throw-kept o e t) ∙ h)

    stored-IsNoted :
        (username : Text) (upload : List ℕ × AvatarMediaType) (key : Text) (w : World orm.Env)
        → owner w.env ≡ none
        → IsNoted username w.db (owner (storing username upload key w).1.env)
    unfolding upload_in_transaction
    stored-IsNoted username upload key w fresh =
        required (require orm (user_by_username username) invalid_token w) refl
          (require-kept (user_by_username username) invalid_token w)
      where
        rest : User → M (World orm.Env) (User × List (Text × Text))
        rest user = do
          setting (set_owner user.id)
          stale ← orm.execute (query (stale_attachments user.id))
          setting set_attempted
          write_file key upload.0
          orm.execute
              (insert_attachment (attachment_row new.attachment_id new.now user.id upload key))
          orm.execute (command (save_user new.now (with_image new.attachment_id user)))
          pure (with_image new.attachment_id user, stale)

        required :
            (o : Outcome User × World orm.Env)
            → require orm (user_by_username username) invalid_token w ≡ o
            → owner o.1.env ≡ owner w.env
            → IsNoted username w.db (owner (after o rest).1.env)
        required (thrown e, t) run kept = inl (kept ∙ fresh)
        required (returned u, t) run kept =
            let noted : World orm.Env = record t { env = set_owner u.id t.env } in
            inr (
              u,
              (require-returned orm (user_by_username username) invalid_token w run).0,
              after-kept (orm.execute (query (stale_attachments u.id)) noted) _ (some u.id)
                  (local.execute_kept (query (stale_attachments u.id)) noted
                    ∙ local.set_lem u.id t.env)
                  (λ stale t₂ h₂.
                    after-kept (write_file key upload.0 (record t₂ { env = set_attempted t₂.env }))
                      _ (some u.id)
                      (local.write_kept key upload.0 (record t₂ { env = set_attempted t₂.env })
                        ∙ local.attempted_lem t₂.env
                        ∙ h₂)
                      (λ _ t₃ h₃.
                        after-kept
                          (orm.execute
                            (insert_attachment
                              (attachment_row new.attachment_id new.now u.id upload key))
                            t₃)
                          _ (some u.id) (local.execute_kept _ t₃ ∙ h₃)
                          (λ _ t₄ h₄.
                            after-kept
                              (orm.execute
                                (command (save_user new.now (with_image new.attachment_id u))) t₄)
                              _ (some u.id) (local.execute_kept _ t₄ ∙ h₄) (λ _ t₅ h₅. h₅)))),
            )

    pub transaction-IsNoted :
        (username : Text) (upload : List ℕ × AvatarMediaType) (key : Text) (w : World orm.Env)
        → owner w.env ≡ none
        → IsNoted username w.db (owner (orm.transaction (storing username upload key) w).1.env)
    transaction-IsNoted username upload key w fresh =
        elim (local.transaction_kept (storing username upload key) w) [
          | inl before ↦ inl (before ∙ fresh)
          | inr (v, same_db, same_owner, ends) ↦
              subst
                (λ d.
                  IsNoted username d
                    (owner (orm.transaction (storing username upload key) w).1.env))
                same_db
                (subst (IsNoted username v.db) (sym ends)
                  (stored-IsNoted username upload key v (same_owner ∙ fresh)))
        ]
