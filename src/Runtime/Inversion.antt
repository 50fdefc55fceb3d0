-- ===== src/Runtime/Inversion.antt =====
-- What a finished call says of its parts.
use nest_js_tutorial.Base.{Bool, true, false, ◌≡◌, refl, ◌⊎◌, inl, inr}
use nest_js_tutorial.Runtime.Exceptions.{Exception}
use nest_js_tutorial.Runtime.Monad.{
  Outcome, returned, thrown, M, pure, after, recover, throw, throw_if,
}

module _ {S : Type 0} where
  -- A sequence returns only if its first part does.
  pub after-returned :
      {A B : Type 0} (o : Outcome A × S) (f : A → M S B) {b : B} {s' : S}
      → after o f ≡ (returned b, s')
      → (a : A) × (t : S) × (o ≡ (returned a, t)) × (f a t ≡ (returned b, s'))
  after-returned (returned a, t) f h = (a, t, refl, h)
  after-returned (thrown e, t) f h = cc

  -- A sequence throws what its first part threw, or what its second part throws.
  pub after-thrown :
      {A B : Type 0} (o : Outcome A × S) (f : A → M S B) {e : Exception} {s' : S}
      → after o f ≡ (thrown e, s')
      → (o ≡ (thrown e, s'))
        ⊎ ((a : A) × (t : S) × (o ≡ (returned a, t)) × (f a t ≡ (thrown e, s')))
  after-thrown (returned a, t) f h = inr (a, t, refl, h)
  after-thrown (thrown e, t) f h = inl (cc)

  -- A guarded call throws only what its handler throws.
  pub recover-thrown :
      {A : Type 0} (o : Outcome A × S) (h : Exception → M S A) {e : Exception} {s' : S}
      → recover o h ≡ (thrown e, s')
      → (e' : Exception) × (t : S) × (o ≡ (thrown e', t)) × (h e' t ≡ (thrown e, s'))
  recover-thrown (returned a, t) h p = cc
  recover-thrown (thrown e', t) h p = (e', t, refl, p)

  pub throw_if-returned :
      (b : Bool) (e : Exception) (s s' : S) (a : Unit {0})
      → throw_if b e s ≡ (returned a, s')
      → (b ≡ false) × (s ≡ s')
  throw_if-returned true e s s' a h = cc
  throw_if-returned false e s s' a h = (refl, cc)

  pub recover-returned :
      {A : Type 0} (o : Outcome A × S) (g : Exception → Exception) {a : A} {s' : S}
      → recover o (λ e. throw (g e)) ≡ (returned a, s')
      → o ≡ (returned a, s')
  recover-returned (returned a, t) g p = p
  recover-returned (thrown e', t) g p = cc

  pub pure-returned :
      {A : Type 0} (a b : A) (s s' : S) → pure a s ≡ (returned b, s') → (b ≡ a) × (s' ≡ s)
  pure-returned a b s s' h = (cc, cc)

  -- Where the handler only chooses the error to throw.
  pub recover-rethrown :
      {A : Type 0} (o : Outcome A × S) (g : Exception → Exception) {e : Exception} {s' : S}
      → recover o (λ e. throw (g e)) ≡ (thrown e, s')
      → (e' : Exception) × (e ≡ g e')
  recover-rethrown (returned a, t) g p = cc
  recover-rethrown (thrown e', t) g p = (e', cc)
