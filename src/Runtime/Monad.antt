-- ===== src/Runtime/Monad.antt =====
-- An asynchronous function over a state. A throw keeps what was written before it: only a database
-- transaction takes writes back.
use nest_js_tutorial.Base.{Bool, true, false}
use nest_js_tutorial.Runtime.Exceptions.{Exception}

pub data Outcome (A : Type 0) : Type 0 where
  returned : A → Outcome A
  thrown : Exception → Outcome A

abbrev pub M : Type 0 → Type 0 → Type 0
M S A = S → Outcome A × S

module _ {S : Type 0} where
  abbrev pub pure : {A : Type 0} → A → M S A
  pure a s = (returned a, s)

  abbrev pub throw : {A : Type 0} → Exception → M S A
  throw e s = (thrown e, s)

  -- What follows an `await`, by how the awaited call ended.
  abbrev pub after : {A B : Type 0} → Outcome A × S → (A → M S B) → Outcome B × S
  after (returned a, s) f = f a s
  after (thrown e, s) f = (thrown e, s)

  infixl 5 ◌>>=◌ ◌>>◌
  abbrev pub ◌>>=◌ : {A B : Type 0} → M S A → (A → M S B) → M S B
  ◌>>=◌ m f s = after (m s) f

  abbrev pub ◌>>◌ : {B : Type 0} → M S (Unit {0}) → M S B → M S B
  m >> k = m >>= λ _. k

  -- `if (test) throw error;`
  abbrev pub throw_if : Bool → Exception → M S (Unit {0})
  throw_if true e = throw e
  throw_if false e = pure tt

  -- What a `catch (error)` block makes of how its `try` block ended.
  abbrev pub recover : {A : Type 0} → Outcome A × S → (Exception → M S A) → Outcome A × S
  recover (returned a, s) h = (returned a, s)
  recover (thrown e, s) h = h e s

  abbrev pub try_catch : {A : Type 0} → M S A → (Exception → M S A) → M S A
  try_catch m h s = recover (m s) h
