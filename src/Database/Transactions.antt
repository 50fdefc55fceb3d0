-- ===== src/Database/Transactions.antt =====
-- What a driver guarantees, in the form that the proofs about the services use.
use nest_js_tutorial.Base.{◌≡◌, sym, ap, ◌∙◌, subst, inl, inr}
use nest_js_tutorial.Runtime.{Exception, returned, thrown, M, throw, try_catch}
use nest_js_tutorial.Runtime.Inversion.{recover-thrown, recover-returned}
use nest_js_tutorial.Database.Driver.{Orm, World, Statement, Executed, Committed}

-- A `try` around a transaction whose `catch` only chooses the error to throw.
abbrev pub guarded :
    (orm : Orm) {A : Type 0} → M (World orm.Env) A → (Exception → Exception) → M (World orm.Env) A
guarded orm m g = try_catch (orm.transaction m) (λ e. throw (g e))

module _ (orm : Orm) {A : Type 0} where
  pub execute-returned :
      (f : Statement A) (w : World orm.Env) {a : A} {w' : World orm.Env}
      → orm.execute f w ≡ (returned a, w')
      → f w.db ≡ (returned a, w'.db)
  execute-returned f w {a} {w'} h = elim (subst (Executed f w) h (orm.execute_lem f w)) [
    | inl same ↦ sym same
    | inr (e, bad, _) ↦ cc
  ]

  pub transaction-thrown :
      (m : M (World orm.Env) A) (w : World orm.Env) {e : Exception} {w' : World orm.Env}
      → orm.transaction m w ≡ (thrown e, w')
      → w'.db ≡ w.db
  transaction-thrown m w h = subst (Committed m w) h (orm.transaction_lem m w)

  pub transaction-returned :
      (m : M (World orm.Env) A) (w : World orm.Env) {a : A} {w' : World orm.Env}
      → orm.transaction m w ≡ (returned a, w')
      → (v v' : World orm.Env) × (m v ≡ (returned a, v')) × (v.db ≡ w.db) × (v'.db ≡ w'.db)
  transaction-returned m w h = subst (Committed m w) h (orm.transaction_lem m w)

  -- A guarded transaction that throws has changed no row.
  pub guarded-thrown :
      (m : M (World orm.Env) A) (g : Exception → Exception) (w : World orm.Env) {e : Exception}
      {w' : World orm.Env}
      → guarded orm m g w ≡ (thrown e, w')
      → (w'.db ≡ w.db) × ((e' : Exception) × (e ≡ g e'))
  guarded-thrown m g w {e} {w'} h =
      let (e', t, run, same) = recover-thrown (orm.transaction m w) (λ x. throw (g x)) h in
      (ap (λ o. World.db (o.1)) (sym same) ∙ transaction-thrown m w run, (e', cc))

  -- A guarded transaction that returns has committed a run of its callback.
  pub guarded-returned :
      (m : M (World orm.Env) A) (g : Exception → Exception) (w : World orm.Env) {a : A}
      {w' : World orm.Env}
      → guarded orm m g w ≡ (returned a, w')
      → (v v' : World orm.Env) × (m v ≡ (returned a, v')) × (v.db ≡ w.db) × (v'.db ≡ w'.db)
  guarded-returned m g w h = transaction-returned m w (recover-returned (orm.transaction m w) g h)
