-- ===== src/Auth/CurrentUser/Laws.antt =====
-- What an update of the current user changes, and how it fails.
use nest_js_tutorial.Base.{
  ℕ, ◌≡◌, refl, sym, ap, ◌∙◌, subst, true, not, ◌⊎◌, inl, inr, Option, none, some, Text, ◌==◌,
  ==_refl, same_option→eq, List, [], ◌∷◌, map, select, find-map, arith, Bool-cases,
}
use nest_js_tutorial.Runtime.{Exception, returned, thrown, M, pure, ◌>>=◌}
use nest_js_tutorial.Runtime.Inversion.{
  after-returned, after-thrown, pure-returned, recover-returned, recover-thrown,
}
use nest_js_tutorial.Database.{Db, User, Orm, World, query, command}
use nest_js_tutorial.Database.Statements.{user_by_username, or_throw}
use nest_js_tutorial.Database.Steps.{query-step, command-step, command-thrown, query-kept}
use nest_js_tutorial.Database.ReadOnly.{IsReadOnly}
use nest_js_tutorial.Serializers.{SerializedUser, serialize_user}
use nest_js_tutorial.Auth.CurrentUser.{
  UpdateUserRequest, assigned, updated_user, saved_row, save_user, invalid_token, request_failed,
  is_unauthorized, update_user_error, save_found, update_current_user, update_user_body,
  update_user,
}

-- The rows of everybody else.
abbrev pub others : Text → List User → List User
others id users = select (λ u. not (User.id u == id)) users

-- The row of the user after the update.
pub record IsUpdated (update : UpdateUserRequest) (user after : User) : Type 0 where
  pub id : after.id ≡ user.id
  pub username : after.username ≡ user.username
  pub email : after.email ≡ user.email
  pub password_hash : after.password_hash ≡ user.password_hash
  pub created_at : after.created_at ≡ user.created_at
  pub bio : after.bio ≡ assigned update.bio user.bio
  pub image : after.image ≡ assigned update.image user.image

module _ (now : ℕ) (update : UpdateUserRequest) (user : User) where
  abbrev row_after : User → User
  row_after = saved_row now (updated_user update user)

  others_kept : (users : List User) → others user.id (map row_after users) ≡ others user.id users
  unfolding updated_user select
  others_kept [] = refl
  others_kept (u ∷ users) = ground (arith, others_kept users)

  same_name :
      (name : Text) (u : User) → (User.username (row_after u) == name) ≡ (u.username == name)
  unfolding updated_user
  same_name name u = ground arith

  row_after-IsUpdated : IsUpdated update user (row_after user)
  unfolding updated_user
  row_after-IsUpdated = record {
    id = ground arith;
    username = ground arith;
    email = ground arith;
    password_hash = ground arith;
    created_at = ground arith;
    bio = ground (arith, same_option→eq (user.bio) (assigned update.bio user.bio), ==_refl user.id);
    image =
        ground
          (arith, same_option→eq (user.image) (assigned update.image user.image), ==_refl user.id);
  }

-- The user of this name has been updated, nothing else has changed, and the response shows the row with
-- the new token.
pub record IsUserUpdate (name : Text) (update : UpdateUserRequest) (d d' : Db) (token : Text)
    (r : SerializedUser) : Type 0 where
  pub user : User
  pub after : User
  pub found : user_by_username name d ≡ some user
  pub stored : user_by_username name d' ≡ some after
  pub changed : IsUpdated update user after
  pub kept : others user.id d'.users ≡ others user.id d.users
  pub tables : d' ≡ record d { users = d'.users }
  pub shown : r ≡ serialize_user after token

shown_fields :
    (update : UpdateUserRequest) (user after : User) (token : Text)
    → IsUpdated update user after
    → serialize_user (updated_user update user) token ≡ serialize_user after token
unfolding serialize_user updated_user
shown_fields update user after token h = λ i. record {
  bio = sym h.bio i;
  email = sym h.email i;
  image = sym h.image i;
  token = token;
  username = sym h.username i;
}

saved-IsUserUpdate :
    (now : ℕ) (name : Text) (update : UpdateUserRequest) (d : Db) (user : User) (token : Text)
    → user_by_username name d ≡ some user
    → IsUserUpdate name update d
        (save_user now (updated_user update user) d)
        token
        (serialize_user (updated_user update user) token)
unfolding save_user user_by_username
saved-IsUserUpdate now name update d user token found =
    let is_updated = row_after-IsUpdated now update user in
    record {
      user = user;
      after = row_after now update user user;
      found = found;
      stored =
          find-map (λ u. User.username u == name) (row_after now update user) d.users
            (same_name now update user name) found;
      changed = is_updated;
      kept = others_kept now update user d.users;
      tables = refl;
      shown = shown_fields update user (row_after now update user user) token is_updated;
    }

module _ (orm : Orm) (now : ℕ) (issue : Text → M (World orm.Env) Text) where
  or_throw-some :
      {A : Type 0} (o : Option A) (e : Exception) (s s' : World orm.Env) (a : A)
      → or_throw o e s ≡ (returned a, s')
      → (o ≡ some a) × (s' ≡ s)
  or_throw-some none e s s' a h = cc
  or_throw-some (some b) e s s' a h = (cc, cc)

  save_found-returned :
      (name : Text) (update : UpdateUserRequest) (found : Option User) (w w' : World orm.Env)
      (user : User)
      → save_found orm now issue update found w ≡ (returned (some user), w')
      → (old : User) × (found ≡ some old)
        × (user ≡ updated_user update old)
        × (w'.db ≡ save_user now (updated_user update old) w.db)
  unfolding save_found
  save_found-returned name update none w w' user h = cc
  save_found-returned name update (some old) w w' user h =
      let (t, saved, h) = command-step orm _ w (save_user now (updated_user update old)) h in
      let (shows, ends) = pure-returned (some (updated_user update old)) (some user) t w' h in
      let same : user ≡ updated_user update old = cc in (old, refl, same, ap World.db ends ∙ saved)

  -- Whatever the driver does, if an update of the current user returns then the user is there, the
  -- stored bio and image are those of the request where it has them and as before where it has none,
  -- nothing else of the user and nothing of anybody else has changed but the time of the update, and
  -- the response shows the user with the new token; signing a token must change no row.
  pub update_user_returned :
      (subject : Text) (update : UpdateUserRequest) (w w' : World orm.Env) (r : SerializedUser)
      → IsReadOnly (issue subject)
      → update_user orm now issue subject update w ≡ (returned r, w')
      → (token : Text) × (t : World orm.Env) × (issue subject w ≡ (returned token, t))
        × IsUserUpdate subject update w.db w'.db token r
  unfolding update_user update_user_body update_current_user
  update_user_returned subject update w w' r signs h =
      let h = recover-returned _ update_user_error h in
      let (token, t, issued, h) = after-returned (issue subject w) _ h in
      let kept : t.db ≡ w.db = ap (λ o. World.db (o.1)) (sym issued) ∙ signs.keeps w in
      let (found, t₂, run, h) =
        after-returned (update_current_user orm now issue subject update t) _ h in
      let (user, t₃, some_user, h) = after-returned (or_throw found invalid_token t₂) _ h in
      let (is_some, same) = or_throw-some found invalid_token t₂ t₃ user some_user in
      let (t₄, looked, run) = query-step orm _ t (user_by_username subject) run in
      let run =
        subst
          (λ o.
            save_found orm now issue update (user_by_username subject t.db) t₄ ≡ (returned o, t₂))
          is_some run in
      let (old, is_old, is_user, saved) =
        save_found-returned subject update (user_by_username subject t.db) t₄ t₂ user run in
      let (shows, ends) = pure-returned (serialize_user user token) r t₃ w' h in
      let at_start = ap (user_by_username subject) (sym kept) ∙ is_old in
      let db : w'.db ≡ save_user now (updated_user update old) w.db =
        ap World.db ends
        ∙ ap World.db same
        ∙ saved
        ∙ ap (save_user now (updated_user update old)) (looked ∙ kept) in
      let shown = shows ∙ ap (λ u. serialize_user u token) is_user in
      (
        token,
        t,
        issued,
        subst (λ d. IsUserUpdate subject update w.db d token r) (sym db)
            (subst
              (IsUserUpdate subject update w.db (save_user now (updated_user update old) w.db)
                token)
              (sym shown) (saved-IsUserUpdate now subject update w.db old token at_start)),
      )

  update_error_declared :
      (e : Exception)
      → (update_user_error e ≡ request_failed) ⊎ (is_unauthorized (update_user_error e) ≡ true)
  unfolding update_user_error
  update_error_declared e = elim (Bool-cases (is_unauthorized e)) [
    | inl refused ↦ inr (rw refused refused)
    | inr other ↦ inl (rw other refl)
  ]

  save_found-thrown :
      (update : UpdateUserRequest) (found : Option User) (w w' : World orm.Env) (e : Exception)
      → save_found orm now issue update found w ≡ (thrown e, w')
      → w'.db ≡ w.db
  unfolding save_found
  save_found-thrown update none w w' e h = cc
  save_found-thrown update (some old) w w' e h =
      elim (after-thrown (orm.execute (command (save_user now (updated_user update old))) w) _ h) [
        | inl failed ↦ command-thrown orm (save_user now (updated_user update old)) w failed
        | inr (u, t, saved, rest) ↦ cc
      ]

  update_current_user-thrown :
      (subject : Text) (update : UpdateUserRequest) (w w' : World orm.Env) (e : Exception)
      → update_current_user orm now issue subject update w ≡ (thrown e, w')
      → w'.db ≡ w.db
  unfolding update_current_user
  update_current_user-thrown subject update w w' e h =
      elim (after-thrown (orm.execute (query (user_by_username subject)) w) _ h) [
        | inl failed ↦ query-kept orm (user_by_username subject) w failed
        | inr (found, t, looked, rest) ↦
            save_found-thrown update found t w' e rest
            ∙ query-kept orm (user_by_username subject) w looked
      ]

  or_throw-none :
      (found : Option User) (token : Text) (s s' : World orm.Env) (e : Exception)
      → (or_throw found invalid_token >>= λ user. pure (serialize_user user token)) s
        ≡ (thrown e, s')
      → (found ≡ none) × (s' ≡ s)
  or_throw-none none token s s' e h = (refl, cc)
  or_throw-none (some u) token s s' e h = cc

  none_unsaved :
      (update : UpdateUserRequest) (found : Option User) (w w' : World orm.Env)
      → save_found orm now issue update found w ≡ (returned none, w')
      → w'.db ≡ w.db
  unfolding save_found
  none_unsaved update none w w' h = cc
  none_unsaved update (some old) w w' h =
      let (t, saved, h) = command-step orm _ w (save_user now (updated_user update old)) h in cc

  nothing_saved :
      (subject : Text) (update : UpdateUserRequest) (w w' : World orm.Env)
      → update_current_user orm now issue subject update w ≡ (returned none, w')
      → w'.db ≡ w.db
  unfolding update_current_user
  nothing_saved subject update w w' h =
      let (t, same, h) = query-step orm _ w (user_by_username subject) h in
      none_unsaved update (user_by_username subject w.db) t w' h ∙ same

  body_thrown :
      (subject : Text) (update : UpdateUserRequest) (w w' : World orm.Env) (e : Exception)
      → IsReadOnly (issue subject)
      → update_user_body orm now issue subject update w ≡ (thrown e, w')
      → w'.db ≡ w.db
  unfolding update_user_body
  body_thrown subject update w w' e signs h =
      let kept = signs.keeps w in
      elim (after-thrown (issue subject w) _ h) [
        | inl failed ↦ ap (λ o. World.db (o.1)) (sym failed) ∙ kept
        | inr (token, t, issued, rest) ↦
            let same : t.db ≡ w.db = ap (λ o. World.db (o.1)) (sym issued) ∙ kept in
            elim (after-thrown (update_current_user orm now issue subject update t) _ rest) [
              | inl failed ↦ update_current_user-thrown subject update t w' e failed ∙ same
              | inr (found, t₂, ran, rest) ↦
                  let (is_none, ends) = or_throw-none found token t₂ w' e rest in
                  ap World.db ends
                  ∙ nothing_saved subject update t t₂ (ran ∙ ap (λ o. (returned o, t₂)) is_none)
                  ∙ same
            ]
      ]

  -- Whatever the driver does, an update of the current user that fails has changed no row, and it is
  -- refused as unauthorized or reported as a failed request; signing a token must change no row.
  pub update_user_atomic :
      (subject : Text) (update : UpdateUserRequest) (w w' : World orm.Env) (e : Exception)
      → IsReadOnly (issue subject)
      → update_user orm now issue subject update w ≡ (thrown e, w')
      → (w'.db ≡ w.db) × ((e ≡ request_failed) ⊎ (is_unauthorized e ≡ true))
  unfolding update_user
  update_user_atomic subject update w w' e signs h =
      let (e', t, run, h) = recover-thrown (update_user_body orm now issue subject update w) _ h in
      let e_eq : update_user_error e' ≡ e = cc in
      let ends : t ≡ w' = cc in
      (
        ap World.db (sym ends) ∙ body_thrown subject update w t e' signs run,
        subst (λ x. (x ≡ request_failed) ⊎ (is_unauthorized x ≡ true)) e_eq
            (update_error_declared e'),
      )
