-- ===== src/Database/Statements.antt =====
-- Statements that several services run: lookups by a unique column, and the errors of PostgreSQL for
-- a violated unique constraint. A violated foreign key is among the failures of the driver.
use nest_js_tutorial.Base.{◌≡◌, sym, ap, ◌∙◌, Option, none, some, Text, codes, ◌==◌, find}
use nest_js_tutorial.Runtime.{Exception, DriverFields, returned, M, throw, pure, ◌>>=◌}
use nest_js_tutorial.Runtime.Inversion.{after-returned}
use nest_js_tutorial.Database.Schema.{Db, User, Article}
use nest_js_tutorial.Database.Driver.{Orm, World, query}
use nest_js_tutorial.Database.Transactions.{execute-returned}

-- `findOneBy({ username })` on the users.
unfoldable pub user_by_username : Text → Db → Option User
user_by_username username d = find (λ u. User.username u == username) d.users

-- `findOneBy({ email })` on the users.
unfoldable pub user_by_email : Text → Db → Option User
user_by_email email d = find (λ u. User.email u == email) d.users

-- `findOne({ where: { slug } })` on the articles.
unfoldable pub article_by_slug : Text → Db → Option Article
article_by_slug slug d = find (λ a. Article.slug a == slug) d.articles

-- The error of a unique constraint: code 23505 with the constraint's name, both on the error and on
-- its `driverError`.
abbrev pub unique_violation_fields : Text → DriverFields
unique_violation_fields constraint = record {
  code = some (codes "23505");
  constraint = some constraint;
  detail = none;
}

abbrev pub unique_violation : Text → Exception
unique_violation constraint =
    Exception.driver (some (unique_violation_fields constraint))
      (unique_violation_fields constraint)

-- `if (!value) throw error;`, after which `value` is there.
abbrev pub or_throw : {S A : Type 0} → Option A → Exception → M S A
or_throw none e = throw e
or_throw (some a) e = pure a

module _ (orm : Orm) {A : Type 0} where
  -- `const value = await repository.findOne(…); if (!value) throw error;`
  abbrev pub require : (Db → Option A) → Exception → M (World orm.Env) A
  require f e = do found ← orm.execute (query f); or_throw found e

  pub query-returned :
      (f : Db → A) (w : World orm.Env) {a : A} {w' : World orm.Env}
      → orm.execute (query f) w ≡ (returned a, w')
      → (f w.db ≡ a) × (w'.db ≡ w.db)
  query-returned f w h = let p = execute-returned orm (query f) w h in (cc, cc)

or_throw-returned :
    {S A : Type 0} (o : Option A) (e : Exception) (s s' : S) (a : A)
    → or_throw o e s ≡ (returned a, s')
    → (o ≡ some a) × (s ≡ s')
or_throw-returned none e s s' a h = cc
or_throw-returned (some b) e s s' a h = (cc, cc)

-- A required row was there, and no row has changed.
pub require-returned :
    (orm : Orm) {A : Type 0} (f : Db → Option A) (e : Exception) (w : World orm.Env) {a : A}
    {w' : World orm.Env}
    → require orm f e w ≡ (returned a, w')
    → (f w.db ≡ some a) × (w'.db ≡ w.db)
require-returned orm f e w {a} {w'} h =
    let (found, t, run, rest) = after-returned (orm.execute (query f) w) (λ o. or_throw o e) h in
    let q = query-returned orm f w run in
    let r = or_throw-returned found e t w' a rest in (q.0 ∙ r.0, ap World.db (sym r.1) ∙ q.1)
