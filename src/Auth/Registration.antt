-- ===== src/Auth/Registration.antt =====
-- AuthService.register (auth/auth.service.ts, auth/auth-registration-support.ts).
pub mod Laws
pub mod Route
use nest_js_tutorial.Base.{
  ℕ, Bool, true, false, ◌&&◌, ◌||◌, not, Option, none, some, Text, codes, ◌==◌, eqb, List, [], ◌∷◌,
  ◌++◌, any, find, same_option, if◌then◌else◌,
}
use nest_js_tutorial.Runtime.{
  Exception, DriverFields, ConflictField, body, email, username, Outcome, returned, thrown, M, pure,
  throw, ◌>>=◌, ◌>>◌, errors_body,
}
use nest_js_tutorial.Database.{
  Db, User, WelcomeMailOutbox, pending, Orm, World, Statement, query, command,
}
use nest_js_tutorial.Database.Statements.{user_by_username, user_by_email, unique_violation}
use nest_js_tutorial.Database.Transactions.{guarded}

-- isUniqueViolation. Only the driver's errors carry a code.
unfoldable pub is_unique_violation : Exception → Bool
is_unique_violation (Exception.driver nested own) = same_option own.code (some (codes "23505"))
is_unique_violation _ = false

-- UNIQUE_CONSTRAINT_FIELDS
unfoldable pub field_of_constraint : Option Text → Option ConflictField
field_of_constraint none = none
field_of_constraint (some name) =
    if name == codes "users_email_key"
    then some email
    else (if name == codes "users_username_key" then some username else none)

-- The rest of a text after a prefix.
abbrev after_prefix : Text → Text → Option Text
after_prefix [] s = some s
after_prefix (p ∷ ps) [] = none
after_prefix (p ∷ ps) (c ∷ s) = let rest = after_prefix ps s in if eqb p c then rest else none

-- What `.` does not match.
abbrev is_line_end : ℕ → Bool
is_line_end c = eqb c 10 || eqb c 13 || eqb c 8232 || eqb c 8233

-- `/^.*\) already exists\.$/`
abbrev ends_value : Text → Bool
ends_value [] = false
ends_value (c ∷ s) =
    let rest = ends_value s in (c ∷ s) == codes ") already exists." || (not (is_line_end c) && rest)

-- `/^.+\) already exists\.$/`
abbrev is_value_end : Text → Bool
is_value_end [] = false
is_value_end (c ∷ s) = not (is_line_end c) && ends_value s

abbrev names_key : Option Text → Bool
names_key none = false
names_key (some rest) = is_value_end rest

-- `/^Key \((email|username)\)=\(.+\) already exists\.$/`
unfoldable pub field_of_detail : Option Text → Option ConflictField
field_of_detail none = none
field_of_detail (some detail) =
    if names_key (after_prefix (codes "Key (email)=(") detail)
    then some email
    else (if names_key (after_prefix (codes "Key (username)=(") detail)
        then some username
        else none)

-- getDuplicateField
unfoldable pub get_duplicate_field : DriverFields → Option ConflictField
unfolding field_of_constraint field_of_detail
get_duplicate_field error = elim (field_of_constraint error.constraint) [
  | some name ↦ some name
  | none ↦ field_of_detail error.detail
]

abbrev pub or_body : Option ConflictField → ConflictField
or_body none = body
or_body (some name) = name

-- The error of `getDuplicateField(error) ?? 'body'`.
unfoldable pub conflict_of : Exception → Exception
unfolding get_duplicate_field
conflict_of (Exception.driver nested own) =
    Exception.auth_conflict (or_body (get_duplicate_field own))
conflict_of e = Exception.auth_conflict body

-- The `catch` block of `register`.
unfoldable pub register_error : Exception → Exception
unfolding is_unique_violation conflict_of
register_error (Exception.auth_conflict name) = Exception.auth_conflict name
register_error e = if is_unique_violation e then conflict_of e else Exception.auth_persistence

-- The `catch` block of AuthController.register.
unfoldable pub register_response_error : Exception → Exception
register_response_error (Exception.auth_conflict body) =
    Exception.http 409 (errors_body (codes "body") (codes "has already been taken"))
register_response_error (Exception.auth_conflict email) =
    Exception.http 409 (errors_body (codes "email") (codes "has already been taken"))
register_response_error (Exception.auth_conflict username) =
    Exception.http 409 (errors_body (codes "username") (codes "has already been taken"))
register_response_error e = Exception.http 500 (errors_body (codes "body") (codes "request failed"))

pub record RegisterRequest : Type 0 where
  pub email : Text
  pub username : Text
  pub password : Text

-- What the database generates for the two rows.
pub record Generated : Type 0 where
  pub user_id : Text
  pub outbox_id : Text
  pub now : ℕ

-- `save` of a new user, under the constraints users_username_key and users_email_key.
unfoldable pub insert_user : User → Statement User
insert_user user d =
    if any (λ u. User.username u == user.username) d.users
    then (thrown (unique_violation (codes "users_username_key")), d)
    else (if any (λ u. User.email u == user.email) d.users
        then (thrown (unique_violation (codes "users_email_key")), d)
        else (returned user, record d { users = d.users ++ user ∷ [] }))

unfoldable pub insert_outbox : WelcomeMailOutbox → Db → Db
insert_outbox entry d = record d { outbox = d.outbox ++ entry ∷ [] }

-- The rows of a registration, with the defaults of their columns.
abbrev pub new_user : Generated → RegisterRequest → Text → User
new_user new request password_hash = record {
  id = new.user_id;
  username = request.username;
  email = request.email;
  password_hash = password_hash;
  bio = none;
  image = none;
  created_at = new.now;
  updated_at = new.now;
}

abbrev pub new_entry : Generated → User → WelcomeMailOutbox
new_entry new user = record {
  id = new.outbox_id;
  user_id = user.id;
  email = user.email;
  username = user.username;
  status = pending;
  attempt_count = 0;
  available_at = new.now;
  lease_owner = none;
  lease_expires_at = none;
  dispatched_at = none;
  created_at = new.now;
}

abbrev pub throw_if_some : {S A : Type 0} → Option A → Exception → M S (Unit {0})
throw_if_some none e = pure tt
throw_if_some (some a) e = throw e

-- A call that only computes, such as that of the hash function (argon2).
abbrev pub lift : {S A : Type 0} → Outcome A → M S A
lift o s = (o, s)

module _ (orm : Orm) (hash_password : Text → Outcome Text) (new : Generated) where
  -- assertAvailable
  unfoldable pub assert_available :
      (Db → Option User) → ConflictField → M (World orm.Env) (Unit {0})
  assert_available lookup name = do
    found ← orm.execute (query lookup)
    throw_if_some found (Exception.auth_conflict name)

  unfoldable pub register_in_transaction : RegisterRequest → M (World orm.Env) (Text × Text)
  unfolding assert_available insert_user insert_outbox
  register_in_transaction request = do
    assert_available (user_by_username request.username) username
    assert_available (user_by_email request.email) email
    password_hash ← lift (hash_password request.password)
    user ← orm.execute (insert_user (new_user new request password_hash))
    orm.execute (command (insert_outbox (new_entry new user)))
    pure (user.email, user.username)

  -- AuthService.register
  unfoldable pub register : RegisterRequest → M (World orm.Env) (Text × Text)
  unfolding register_in_transaction register_error
  register request = guarded orm (register_in_transaction request) register_error
