-- ===== src/Database/Steps.antt =====
-- One step of a callback that has returned: what the step found or did, and the run of the rest.
use nest_js_tutorial.Base.{
  Bool, true, false, ◌≡◌, refl, sym, ap, ◌∙◌, subst, inl, inr, Option, some,
}
use nest_js_tutorial.Runtime.{Exception, Outcome, returned, thrown, M, ◌>>=◌, ◌>>◌, throw_if}
use nest_js_tutorial.Runtime.Inversion.{after-returned}
use nest_js_tutorial.Database.Schema.{Db}
use nest_js_tutorial.Database.Driver.{Orm, World, Statement, Executed, query, command}
use nest_js_tutorial.Database.Transactions.{execute-returned}
use nest_js_tutorial.Database.Statements.{require, require-returned, query-returned}

module _ (orm : Orm) {A B : Type 0} (k : A → M (World orm.Env) B) (w : World orm.Env)
    {w' : World orm.Env} {b : B} where
  -- `const a = …; if (!a) throw e; rest`
  pub require-step :
      (f : Db → Option A) (e : Exception)
      → (require orm f e >>= k) w ≡ (returned b, w')
      → (a : A) × (t : World orm.Env) × (f w.db ≡ some a)
        × (t.db ≡ w.db)
        × (k a t ≡ (returned b, w'))
  require-step f e h =
      let (a, t, run, rest) = after-returned (require orm f e w) k h in
      let q = require-returned orm f e w run in (a, t, q.0, q.1, rest)

  pub query-step :
      (f : Db → A)
      → (orm.execute (query f) >>= k) w ≡ (returned b, w')
      → (t : World orm.Env) × (t.db ≡ w.db) × (k (f w.db) t ≡ (returned b, w'))
  query-step f h =
      let (a, t, run, rest) = after-returned (orm.execute (query f) w) k h in
      let q = query-returned orm f w run in (t, q.1, ap (λ x. k x t) q.0 ∙ rest)

  pub execute-step :
      (f : Statement A)
      → (orm.execute f >>= k) w ≡ (returned b, w')
      → (a : A) × (t : World orm.Env) × (f w.db ≡ (returned a, t.db)) × (k a t ≡ (returned b, w'))
  execute-step f h =
      let (a, t, run, rest) = after-returned (orm.execute f w) k h in
      (a, t, execute-returned orm f w run, rest)

module _ (orm : Orm) {B : Type 0} (k : M (World orm.Env) B) (w : World orm.Env) {w' : World orm.Env}
    {b : B} where
  pub command-step :
      (g : Db → Db)
      → (orm.execute (command g) >> k) w ≡ (returned b, w')
      → (t : World orm.Env) × (t.db ≡ g w.db) × (k t ≡ (returned b, w'))
  command-step g h =
      let (a, t, done, rest) = execute-step orm (λ _. k) w (command g) h in
      (t, ap (λ o. o.1) (sym done), rest)

  -- `if (test) throw e; rest`
  pub throw_if-step :
      (test : Bool) (e : Exception)
      → (throw_if test e >> k) w ≡ (returned b, w')
      → (test ≡ false) × (k w ≡ (returned b, w'))
  throw_if-step true e h = cc
  throw_if-step false e h = (refl, h)

-- A last statement.
pub command-returned :
    (orm : Orm) (w : World orm.Env) {w' : World orm.Env} {u : Unit {0}} (g : Db → Db)
    → orm.execute (command g) w ≡ (returned u, w')
    → w'.db ≡ g w.db
command-returned orm w g h = ap (λ o. o.1) (sym (execute-returned orm (command g) w h))

-- A statement that fails has changed no row, and neither has a query.
pub command-thrown :
    (orm : Orm) (g : Db → Db) (w : World orm.Env) {w' : World orm.Env} {e : Exception}
    → orm.execute (command g) w ≡ (thrown e, w')
    → w'.db ≡ w.db
command-thrown orm g w {w'} {e} h =
    elim (subst (Executed (command g) w) h (orm.execute_lem (command g) w)) [
      | inl same ↦ cc
      | inr (e', bad, same) ↦ same
    ]

pub query-kept :
    (orm : Orm) {A : Type 0} (f : Db → A) (w : World orm.Env) {w' : World orm.Env} {r : Outcome A}
    → orm.execute (query f) w ≡ (r, w')
    → w'.db ≡ w.db
query-kept orm f w {w'} {r} h =
    elim (subst (Executed (query f) w) h (orm.execute_lem (query f) w)) [
      | inl same ↦ ap (λ o. o.1) same
      | inr (e', bad, same) ↦ same
    ]
