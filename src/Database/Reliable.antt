-- ===== src/Database/Reliable.antt =====
-- A driver whose statements never fail by themselves, as an assumption on the parameter, and an
-- in-memory driver that shows that the laws of Orm can be met: it fails where it is told to.
use nest_js_tutorial.Base.{◌≡◌, refl, inl, inr, Option, none, some, List, [], ◌∷◌}
use nest_js_tutorial.Runtime.{Exception, Outcome, returned, thrown, M}
use nest_js_tutorial.Database.Schema.{Db}
use nest_js_tutorial.Database.Driver.{Orm, World, Statement, Executed, Committed}

-- The end of a transaction that began on the tables `d`: a throw takes its writes back.
abbrev pub settle :
    {Env A : Type 0} → (Env → Env) → Db → Outcome A × World Env → Outcome A × World Env
settle next d (returned a, w) = (returned a, record w { env = next w.env })
settle next d (thrown e, w) = (thrown e, record { db = d; env = next w.env })

pub record IsReliable (orm : Orm) : Type 1 where
  pub next : orm.Env → orm.Env
  pub execute_eq :
      {A : Type 0} (f : Statement A) (w : World orm.Env)
      → orm.execute f w ≡ ((f w.db).0, record { db = (f w.db).1; env = next w.env })
  pub transaction_eq :
      {A : Type 0} (m : M (World orm.Env) A) (w : World orm.Env)
      → orm.transaction m w ≡ settle next w.db (m (record { db = w.db; env = next w.env }))

-- Each call takes one entry of the schedule: `some e` makes it fail with `e`.
abbrev pub Faults : Type 0
Faults = List (Option Exception)

abbrev run : {A : Type 0} → Faults → Statement A → Db → Outcome A × World Faults
run [] f d = ((f d).0, record { db = (f d).1; env = [] })
run (none ∷ es) f d = ((f d).0, record { db = (f d).1; env = es })
run (some e ∷ es) f d = (thrown e, record { db = d; env = es })

abbrev commit : {A : Type 0} → Db → Outcome A × World Faults → Outcome A × World Faults
commit d (returned a, w) = (returned a, w)
commit d (thrown e, w) = (thrown e, record w { db = d })

pub run_lem :
    {A : Type 0} (f : Statement A) (es : Faults) (d : Db)
    → Executed f (record { db = d; env = es }) (run es f d)
run_lem f [] d = inl refl
run_lem f (none ∷ es) d = inl refl
run_lem f (some e ∷ es) d = inr (e, refl, refl)

pub commit_lem :
    {A : Type 0} (m : M (World Faults) A) (w : World Faults) (o : Outcome A × World Faults)
    → m w ≡ o
    → Committed m w (commit w.db o)
commit_lem m w (returned a, w') h = (w, w', h, refl, refl)
commit_lem m w (thrown e, w') h = refl

abbrev pub memory_orm : Orm
memory_orm = record {
  Env = Faults;
  execute = λ f w. run w.env f w.db;
  transaction = λ m w. commit w.db (m w);
  execute_lem = λ f w. run_lem f w.env w.db;
  transaction_lem = λ m w. commit_lem m w (m w) refl;
}

-- The in-memory driver that is told to fail nowhere.
abbrev run_always : {A : Type 0} → Statement A → World (Unit {0}) → Outcome A × World (Unit {0})
run_always f w = ((f w.db).0, record { db = (f w.db).1; env = tt })

abbrev commit_always :
    {A : Type 0} → Db → Outcome A × World (Unit {0}) → Outcome A × World (Unit {0})
commit_always d (returned a, w) = (returned a, w)
commit_always d (thrown e, w) = (thrown e, record { db = d; env = tt })

pub commit_always_lem :
    {A : Type 0} (m : M (World (Unit {0})) A) (w : World (Unit {0}))
    (o : Outcome A × World (Unit {0}))
    → m w ≡ o
    → Committed m w (commit_always w.db o)
commit_always_lem m w (returned a, w') h = (w, w', h, refl, refl)
commit_always_lem m w (thrown e, w') h = refl

commit_always-settle :
    {A : Type 0} (d : Db) (o : Outcome A × World (Unit {0}))
    → commit_always d o ≡ settle (λ _. tt) d o
commit_always-settle d (returned a, w) = refl
commit_always-settle d (thrown e, w) = refl

abbrev pub steady_orm : Orm
steady_orm = record {
  Env = Unit;
  execute = run_always;
  transaction = λ m w. commit_always w.db (m w);
  execute_lem = λ f w. inl refl;
  transaction_lem = λ m w. commit_always_lem m w (m w) refl;
}

pub steady_orm-IsReliable : IsReliable steady_orm
steady_orm-IsReliable = record {
  next = λ _. tt;
  execute_eq = λ f w. refl;
  transaction_eq = λ m w. commit_always-settle w.db (m w);
}
