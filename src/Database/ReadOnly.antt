-- ===== src/Database/ReadOnly.antt =====
-- Calls that change no row, however they end.
use nest_js_tutorial.Base.{◌≡◌, refl, sym, ap, ◌∙◌, inl, inr, Option, none, some}
use nest_js_tutorial.Runtime.{
  Exception, Outcome, returned, thrown, M, pure, throw, after, ◌>>=◌, recover, try_catch,
}
use nest_js_tutorial.Database.Schema.{Db}
use nest_js_tutorial.Database.Driver.{Orm, World, Executed, Committed, query}
use nest_js_tutorial.Database.Statements.{or_throw, require}

module _ {Env : Type 0} where
  pub record IsReadOnly {A : Type 0} (m : M (World Env) A) : Type 0 where
    pub keeps : (w : World Env) → (m w).1.db ≡ w.db

  pub read_pure : {A : Type 0} (a : A) → IsReadOnly {A = A} (pure a)
  read_pure a = record { keeps = λ w. refl }

  pub read_throw : {A : Type 0} (e : Exception) → IsReadOnly {A = A} (throw e)
  read_throw e = record { keeps = λ w. refl }

  after-kept :
      {A B : Type 0} (o : Outcome A × World Env) (f : A → M (World Env) B) (d : Db)
      → o.1.db ≡ d
      → ((a : A) → IsReadOnly (f a))
      → (after o f).1.db ≡ d
  after-kept (returned a, w) f d h k = IsReadOnly.keeps (k a) w ∙ h
  after-kept (thrown e, w) f d h k = h

  recover-kept :
      {A : Type 0} (o : Outcome A × World Env) (f : Exception → M (World Env) A) (d : Db)
      → o.1.db ≡ d
      → ((e : Exception) → IsReadOnly (f e))
      → (recover o f).1.db ≡ d
  recover-kept (returned a, w) f d h k = h
  recover-kept (thrown e, w) f d h k = IsReadOnly.keeps (k e) w ∙ h

  pub read_bind :
      {A B : Type 0} (m : M (World Env) A) (f : A → M (World Env) B)
      → IsReadOnly m
      → ((a : A) → IsReadOnly (f a))
      → IsReadOnly (m >>= f)
  read_bind m f h k = record { keeps = λ w. after-kept (m w) f w.db (h.keeps w) k }

  -- A `catch` block that only throws.
  pub read_try :
      {A : Type 0} (m : M (World Env) A) (g : Exception → Exception)
      → IsReadOnly m
      → IsReadOnly (try_catch m (λ e. throw (g e)))
  read_try m g h = record {
    keeps = λ w. recover-kept (m w) (λ e. throw (g e)) w.db (h.keeps w) (λ e. read_throw (g e));
  }

  pub read_or_throw :
      {A : Type 0} (o : Option A) (e : Exception) → IsReadOnly {A = A} (or_throw o e)
  read_or_throw none e = read_throw e
  read_or_throw (some a) e = read_pure a

  kept_lem :
      {A : Type 0} (f : Db → A) (o : Outcome A × World Env) (w : World Env)
      → Executed (query f) w o
      → o.1.db ≡ w.db
  kept_lem f (r, w') w (inl h) = ap (λ p. p.1) h
  kept_lem f (r, w') w (inr (e, thrown_it, same)) = same

module _ (orm : Orm) {A : Type 0} where
  pub read_query : (f : Db → A) → IsReadOnly (orm.execute (query f))
  read_query f = record {
    keeps = λ w. kept_lem f (orm.execute (query f) w) w (orm.execute_lem (query f) w);
  }

  pub read_require : (f : Db → Option A) (e : Exception) → IsReadOnly (require orm f e)
  read_require f e =
      read_bind (orm.execute (query f)) (λ found. or_throw found e)
        (record {
          keeps = λ w. kept_lem f (orm.execute (query f) w) w (orm.execute_lem (query f) w);
        })
        (λ found. read_or_throw found e)

  transaction_kept :
      (m : M (World orm.Env) A) (o : Outcome A × World orm.Env) (w : World orm.Env)
      → IsReadOnly m
      → Committed m w o
      → o.1.db ≡ w.db
  transaction_kept m (returned a, w') w h (v, v', run, start, end) =
      sym end ∙ ap (λ p. p.1.db) (sym run) ∙ h.keeps v ∙ start
  transaction_kept m (thrown e, w') w h same = same

  pub read_transaction : (m : M (World orm.Env) A) → IsReadOnly m → IsReadOnly (orm.transaction m)
  read_transaction m h = record {
    keeps = λ w. transaction_kept m (orm.transaction m w) w h (orm.transaction_lem m w);
  }

-- The rules for a `do` block.
pub ruleset reads = (read_pure, read_throw, read_bind, read_query, read_require, read_or_throw)
