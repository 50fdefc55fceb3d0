-- ===== src/Base/Lists.antt =====
-- Lists: predicates and searches by a Boolean test, and the native length.
use Prim.Native.Nat.{ℕ, zero, suc, ◌+◌, ◌≤◌}
use mathlib.Core.Path.{◌≡◌, refl}
use mathlib.Core.Bool.{Bool, true, false, not, ◌&&◌, ◌||◌}
use mathlib.Core.Option.{Option, none, some}
use mathlib.Core.List.{List, [], ◌∷◌, ◌++◌, map}
use native.Mathlib.Omega.{arith}
use nest_js_tutorial.Base.Booleans.{if◌then◌else◌}

module _ {ℓ} {A : Type ℓ} where
  abbrev pub length : List A → ℕ
  length [] = 0
  length (x ∷ xs) = suc (length xs)

  abbrev pub take : ℕ → List A → List A
  take zero xs = []
  take (suc n) [] = []
  take (suc n) (x ∷ xs) = x ∷ take n xs

  abbrev pub drop : ℕ → List A → List A
  drop zero xs = xs
  drop (suc n) [] = []
  drop (suc n) (x ∷ xs) = drop n xs

  -- `Array.prototype.find`, also the row that a `WHERE` clause selects.
  unfoldable pub find : (A → Bool) → List A → Option A
  find p [] = none
  find p (x ∷ xs) = if p x then some x else find p xs

  -- The rows that satisfy a test, in their order.
  unfoldable pub select : (A → Bool) → List A → List A
  select p [] = []
  select p (x ∷ xs) = if p x then x ∷ select p xs else select p xs

  unfoldable pub count : (A → Bool) → List A → ℕ
  count p [] = 0
  count p (x ∷ xs) = if p x then suc (count p xs) else count p xs

  abbrev pub any : (A → Bool) → List A → Bool
  any p [] = false
  any p (x ∷ xs) = p x || any p xs

  abbrev pub all : (A → Bool) → List A → Bool
  all p [] = true
  all p (x ∷ xs) = p x && all p xs

  pub find-some : (p : A → Bool) (xs : List A) {a : A} → find p xs ≡ some a → p a ≡ true
  unfolding find
  find-some p [] h = ground arith
  find-some p (x ∷ xs) {a} h = ground (arith, find-some p xs {a = a})

  -- A found row is counted by every test that it passes.
  pub find-count :
      (p q : A → Bool) (xs : List A) {a : A} → find p xs ≡ some a → q a ≡ true → 1 ≤ count q xs
  unfolding find count
  find-count p q [] h k = ground arith
  find-count p q (x ∷ xs) {a} h k = ground (arith, find-count p q xs {a = a})

  -- Where at most one row passes `q`, a found row that passes it is the one that `q` finds.
  pub find_unique :
      (p q : A → Bool) (xs : List A) {a : A}
      → find p xs ≡ some a
      → q a ≡ true
      → count q xs ≤ 1
      → find q xs ≡ some a
  unfolding find count
  find_unique p q [] h k u = ground arith
  find_unique p q (x ∷ xs) {a} h k u =
      ground (arith, find_unique p q xs {a = a}, find-count p q xs {a = a})

  pub select-append :
      (p : A → Bool) (xs ys : List A) → select p (xs ++ ys) ≡ select p xs ++ select p ys
  unfolding select
  select-append p [] ys = refl
  select-append p (x ∷ xs) ys = ground (arith, select-append p xs ys)

  pub select-none :
      (p : A → Bool) (xs : List A) → select p xs ≡ [] → select (λ x. not (p x)) xs ≡ xs
  unfolding select
  select-none p [] h = refl
  select-none p (x ∷ xs) h = ground (arith, select-none p xs)

  -- What was removed is not selected again.
  pub select-removed : (p : A → Bool) (xs : List A) → select p (select (λ x. not (p x)) xs) ≡ []
  unfolding select
  select-removed p [] = refl
  select-removed p (x ∷ xs) = ground (arith, select-removed p xs)

  pub find-any : (p : A → Bool) (xs : List A) {a : A} → find p xs ≡ some a → any p xs ≡ true
  unfolding find
  find-any p [] h = ground arith
  find-any p (x ∷ xs) {a} h = ground (arith, find-any p xs {a = a})

  pub find-none : (p : A → Bool) (xs : List A) → find p xs ≡ none → any p xs ≡ false
  unfolding find
  find-none p [] h = refl
  find-none p (x ∷ xs) h = ground (arith, find-none p xs)

  pub find-append :
      (p : A → Bool) (xs ys : List A) → find p xs ≡ none → find p (xs ++ ys) ≡ find p ys
  unfolding find
  find-append p [] ys h = refl
  find-append p (x ∷ xs) ys h = ground (arith, find-append p xs ys)

  pub count-append : (p : A → Bool) (xs ys : List A) → count p (xs ++ ys) ≡ count p xs + count p ys
  unfolding count
  count-append p [] ys = omega arith
  count-append p (x ∷ xs) ys = ground (arith, count-append p xs ys)

  -- Removing the rows of `p` splits every count.
  pub count-select :
      (p q : A → Bool) (xs : List A)
      → count q (select (λ x. not (p x)) xs) + count (λ x. p x && q x) xs ≡ count q xs
  unfolding count select
  count-select p q [] = omega arith
  count-select p q (x ∷ xs) = ground (arith, count-select p q xs)

-- A change that a test does not see.
pub find-map {ℓ} :
    {A : Type ℓ} (p : A → Bool) (f : A → A) (xs : List A) {a : A}
    → ((x : A) → p (f x) ≡ p x)
    → find p xs ≡ some a
    → find p (map f xs) ≡ some (f a)
unfolding find
find-map p f [] h k = ground arith
find-map p f (x ∷ xs) {a} h k = ground (arith, h x, find-map p f xs {a = a} h)

module _ {ℓ κ} {A : Type ℓ} (P : A → Type κ) where
  abbrev pub All : List A → Type κ
  All [] = Unit
  All (x ∷ xs) = P x × All xs

  pub All-append : (xs ys : List A) → All xs → All ys → All (xs ++ ys)
  All-append [] ys hx hy = hy
  All-append (x ∷ xs) ys hx hy = (hx.0, All-append xs ys hx.1 hy)

  pub All-select : (p : A → Bool) (xs : List A) → All xs → All (select p xs)
  unfolding select
  All-select p [] h = tt
  All-select p (x ∷ xs) h = ground (arith, All-select p xs h.1)
