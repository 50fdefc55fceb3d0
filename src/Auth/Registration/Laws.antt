-- ===== src/Auth/Registration/Laws.antt =====
-- What a registration guarantees.
use nest_js_tutorial.Base.{Option-cases}
use nest_js_tutorial.Base.{
  ◌≡◌, refl, sym, ap, ◌∙◌, Bool, true, false, Option, none, some, Text, codes, ◌==◌, [], ◌∷◌, ◌++◌,
  any, if◌then◌else◌, Bool-cases, inl, inr,
}
use mathlib.Core.Path.{subst₂}
use nest_js_tutorial.Runtime.{
  Exception, ConflictField, email, username, Outcome, returned, thrown, M, ◌>>◌,
}
use nest_js_tutorial.Runtime.Inversion.{after-returned, pure-returned}
use nest_js_tutorial.Database.{Db, User, Orm, World}
use nest_js_tutorial.Database.Statements.{user_by_username, user_by_email, unique_violation}
use nest_js_tutorial.Database.Reliable.{IsReliable}
use nest_js_tutorial.Database.Steps.{query-step, execute-step, command-step}
use nest_js_tutorial.Database.Transactions.{guarded-thrown, guarded-returned}
use nest_js_tutorial.Auth.Registration.{
  is_unique_violation, get_duplicate_field, field_of_constraint, conflict_of, register_error,
  RegisterRequest, Generated, insert_user, insert_outbox, new_user, new_entry, throw_if_some, lift,
  assert_available, register_in_transaction, register,
}

-- The user and the mail to be sent have been stored together.
pub record IsRegistered (new : Generated) (request : RegisterRequest) (hash : Text) (d d' : Db)
    : Type 0 where
  pub free_username : user_by_username request.username d ≡ none
  pub free_email : user_by_email request.email d ≡ none
  pub stored : d' ≡ record d {
    users = d.users ++ new_user new request hash ∷ [];
    outbox = d.outbox ++ new_entry new (new_user new request hash) ∷ [];
  }

abbrev pub IsRegisteredAs :
    (Text → Outcome Text) → Generated → RegisterRequest → Text × Text → Db → Db → Type 0
IsRegisteredAs hash_password new request r d d' =
    (hash : Text) × (hash_password request.password ≡ returned hash)
    × (r ≡ (request.email, request.username))
    × IsRegistered new request hash d d'

-- The field that is reported, by who has the username and who the email.
abbrev pub refusal : Option User → Option User → Option ConflictField
refusal (some u) owner = some username
refusal none (some u) = some email
refusal none none = none

-- The two errors of the service.
abbrev pub is_register_error : Exception → Bool
is_register_error (Exception.auth_conflict name) = true
is_register_error Exception.auth_persistence = true
is_register_error _ = false

conflict_of_lem : (e : Exception) → is_register_error (conflict_of e) ≡ true
unfolding conflict_of
conflict_of_lem (Exception.driver nested own) = refl
conflict_of_lem e = refl

either_error :
    (b : Bool) (e : Exception)
    → is_register_error e ≡ true
    → is_register_error (if b then e else Exception.auth_persistence) ≡ true
either_error true e h = h
either_error false e h = refl

register_error_lem : (e : Exception) → is_register_error (register_error e) ≡ true
unfolding register_error
register_error_lem (Exception.auth_conflict name) = refl
register_error_lem e = either_error (is_unique_violation e) (conflict_of e) (conflict_of_lem e)

inserted :
    (user u : User) (d d' : Db)
    → insert_user user d ≡ (returned u, d')
    → (u ≡ user) × (d' ≡ record d { users = d.users ++ user ∷ [] })
unfolding insert_user
inserted user u d d' h = elim (Bool-cases (any (λ u. User.username u == user.username) d.users)) [
  | inl taken ↦ let h = rw taken at h in cc
  | inr free ↦ elim (Bool-cases (any (λ u. User.email u == user.email) d.users)) [
    | inl taken ↦ let h = rw (free, taken) at h in cc
    | inr free_email ↦ let h = rw (free, free_email) at h in (cc, cc)
  ]
]

module _ (orm : Orm) (hash_password : Text → Outcome Text) (new : Generated) where
  available-step :
      {B : Type 0} (lookup : Db → Option User) (name : ConflictField) (k : M (World orm.Env) B)
      (w w' : World orm.Env) (b : B)
      → (assert_available orm hash_password new lookup name >> k) w ≡ (returned b, w')
      → (t : World orm.Env) × (lookup w.db ≡ none) × (t.db ≡ w.db) × (k t ≡ (returned b, w'))
  unfolding assert_available
  available-step lookup name k w w' b h =
      let (_, t, run, rest) = after-returned _ (λ _. k) h in
      let (t', same, run) =
        query-step orm (λ found. throw_if_some found (Exception.auth_conflict name)) w lookup run in
      let (absent, ends) = not_thrown (lookup w.db) (Exception.auth_conflict name) t' t run in
      (t, absent, ap World.db ends ∙ same, rest)
    where
      not_thrown :
          {S : Type 0} (o : Option User) (e : Exception) (s s' : S)
          → throw_if_some o e s ≡ (returned tt, s')
          → (o ≡ none) × (s' ≡ s)
      not_thrown none e s s' h = (refl, cc)
      not_thrown (some a) e s s' h = cc

  register_in_transaction-returned :
      (request : RegisterRequest) (w w' : World orm.Env) (r : Text × Text)
      → register_in_transaction orm hash_password new request w ≡ (returned r, w')
      → (hash : Text) × (hash_password request.password ≡ returned hash)
        × (r ≡ (request.email, request.username))
        × IsRegistered new request hash w.db w'.db
  unfolding register_in_transaction insert_outbox
  register_in_transaction-returned request w w' r h =
      let (t, free_username, s₁, h) =
        available-step (user_by_username request.username) username _ w w' r h in
      let (t₂, free_email, s₂, h) = available-step (user_by_email request.email) email _ t w' r h in
      let (hash, t₃, hashed, h) = after-returned (lift (hash_password request.password) t₂) _ h in
      let same : t₃ ≡ t₂ = sym (ap (λ x. x.1) hashed) in
      let is_hash : hash_password request.password ≡ returned hash = ap (λ x. x.0) hashed in
      let (user, t₄, saved, h) =
        execute-step orm _ t₃ (insert_user (new_user new request hash)) h in
      let (is_user, users) = inserted (new_user new request hash) user t₃.db t₄.db saved in
      let (t₅, mailed, h) = command-step orm _ t₄ (insert_outbox (new_entry new user)) h in
      let (shows, ends) = pure-returned (user.email, user.username) r t₅ w' h in
      let add : Db → Db = λ d. record d { users = d.users ++ new_user new request hash ∷ [] } in
      (
        hash,
        is_hash,
        shows ∙ ap (λ (u : User). (u.email, u.username)) is_user,
        record {
          free_username = free_username;
          free_email = ap (user_by_email request.email) (sym s₁) ∙ free_email;
          stored =
              ap World.db ends
              ∙ mailed
              ∙ ap (insert_outbox (new_entry new user)) users
              ∙ ap (λ u. insert_outbox (new_entry new u) (add t₃.db)) is_user
              ∙ ap (λ d. insert_outbox (new_entry new (new_user new request hash)) (add d))
                  (ap World.db same ∙ s₂ ∙ s₁);
        },
      )

  -- Whatever the driver does, if a registration returns then the username and the email were free,
  -- exactly the new user and the mail to that user have been stored, and the response names the user.
  pub register_returned :
      (request : RegisterRequest) (w w' : World orm.Env) (r : Text × Text)
      → register orm hash_password new request w ≡ (returned r, w')
      → IsRegisteredAs hash_password new request r w.db w'.db
  unfolding register user_by_username user_by_email
  register_returned request w w' r h =
      let (v, v', run, start, end) =
        guarded-returned orm (register_in_transaction orm hash_password new request) register_error
          w h in
      let (hash, is_hash, shows, done) = register_in_transaction-returned request v v' r run in
      (hash, is_hash, shows, subst₂ (IsRegistered new request hash) start end done)

  -- If a registration throws, no row has changed, neither user nor mail, and the error is one of the
  -- two that the service declares.
  pub register_atomic :
      (request : RegisterRequest) (w w' : World orm.Env) (e : Exception)
      → register orm hash_password new request w ≡ (thrown e, w')
      → (w'.db ≡ w.db) × (is_register_error e ≡ true)
  unfolding register
  register_atomic request w w' e h =
      let p =
        guarded-thrown orm (register_in_transaction orm hash_password new request) register_error w
          h in
      (p.0, rw (p.1.1) (register_error_lem p.1.0))

  -- A driver that does not fail by itself reports a username that is taken, and else an email that is
  -- taken, as a conflict of that field.
  pub register_refused :
      (reliable : IsReliable orm) (request : RegisterRequest) (w : World orm.Env)
      (name : ConflictField)
      → refusal (user_by_username request.username w.db) (user_by_email request.email w.db)
        ≡ some name
      → (register orm hash_password new request w).0 ≡ thrown (Exception.auth_conflict name)
  unfolding register register_in_transaction assert_available register_error
  register_refused reliable request w name h =
      elim (Option-cases (user_by_username request.username w.db)) [
        | inr (u, taken) ↦
            let field : username ≡ name = cc in
            simp (reliable.transaction_eq, reliable.execute_eq, taken)
              (ap (λ n. thrown (Exception.auth_conflict n)) field)
        | inl free ↦ elim (Option-cases (user_by_email request.email w.db)) [
          | inr (u, taken) ↦
              let field : email ≡ name = cc in
              simp (reliable.transaction_eq, reliable.execute_eq, free, taken)
                (ap (λ n. thrown (Exception.auth_conflict n)) field)
          | inl free_email ↦ cc
        ]
      ]

-- Where the constraint is violated although both were free when they were looked up, the field is still
-- found, by the name of the constraint.
pub register_race :
    (register_error (unique_violation (codes "users_username_key"))
      ≡ Exception.auth_conflict username)
    × (register_error (unique_violation (codes "users_email_key")) ≡ Exception.auth_conflict email)
unfolding register_error is_unique_violation conflict_of get_duplicate_field field_of_constraint
    ◌==◌
register_race = (refl, refl)
