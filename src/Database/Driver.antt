-- ===== src/Database/Driver.antt =====
-- The driver (TypeORM over PostgreSQL). A statement is the function on the tables that its SQL
-- denotes. Of the driver the code relies on two documented facts: a statement either takes effect
-- or fails and changes no row, and a transaction either commits all that its callback did or, if
-- anything throws, leaves the tables as they were.
use nest_js_tutorial.Base.{◌≡◌, ◌⊎◌}
use nest_js_tutorial.Runtime.{Exception, Outcome, returned, thrown, M}
use nest_js_tutorial.Database.Schema.{Db}

-- The tables and whatever else the driver depends on, such as its connections.
pub record World (Env : Type 0) : Type 0 where
  pub db : Db
  pub env : Env

abbrev pub Statement : Type 0 → Type 0
Statement A = Db → Outcome A × Db

-- How a statement may end.
abbrev pub Executed : {Env A : Type 0} → Statement A → World Env → Outcome A × World Env → Type 0
Executed f w (r, w') = ((r, w'.db) ≡ f w.db) ⊎ ((e : Exception) × (r ≡ thrown e) × (w'.db ≡ w.db))

-- How a transaction may end: a result comes from a run of the callback on the same tables.
abbrev pub Committed :
    {Env A : Type 0} → M (World Env) A → World Env → Outcome A × World Env → Type 0
Committed {Env} m w (returned a, w') =
    (v v' : World Env) × (m v ≡ (returned a, v')) × (v.db ≡ w.db) × (v'.db ≡ w'.db)
Committed m w (thrown e, w') = w'.db ≡ w.db

pub record Orm : Type 1 where
  pub Env : Type 0
  pub execute : {A : Type 0} → Statement A → M (World Env) A
  pub transaction : {A : Type 0} → M (World Env) A → M (World Env) A
  pub execute_lem : {A : Type 0} (f : Statement A) (w : World Env) → Executed f w (execute f w)
  pub transaction_lem :
      {A : Type 0} (m : M (World Env) A) (w : World Env) → Committed m w (transaction m w)

-- Statements that only read, or that only write and cannot violate a constraint.
abbrev pub query : {A : Type 0} → (Db → A) → Statement A
query f d = (returned (f d), d)

abbrev pub command : (Db → Db) → Statement (Unit {0})
command g d = (returned tt, g d)
