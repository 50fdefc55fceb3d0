-- ===== src/Jobs/Outbox/Lookup.antt =====
-- Looking up a row of the outbox by its id after other rows have been claimed.
use nest_js_tutorial.Base.{
  ℕ, zero, suc, ◌≤◌, ◌≡◌, refl, Bool, true, false, none, some, List, [], ◌∷◌, map, take, ◌++◌, find,
  select, count, arith, leb, All, subst, Bool-cases, inl, inr,
}
use nest_js_tutorial.Database.{WelcomeMailOutbox}
use nest_js_tutorial.Jobs.Outbox.{insert_by_creation, order_by_creation}

find-few :
    (p q : WelcomeMailOutbox → Bool) (xs : List WelcomeMailOutbox)
    → count p xs ≤ 0
    → find p (select q xs) ≡ none
unfolding find select count
find-few p q [] u = refl
find-few p q (x ∷ xs) u = ground (arith, find-few p q xs)

-- Where one row passes `p`, and it fails `q`, no row that passes `q` passes `p`.
pub find-select :
    (p q : WelcomeMailOutbox → Bool) (xs : List WelcomeMailOutbox) {a : WelcomeMailOutbox}
    → find p xs ≡ some a
    → q a ≡ false
    → count p xs ≤ 1
    → find p (select q xs) ≡ none
unfolding find select count
find-select p q [] h k u = refl
find-select p q (x ∷ xs) {a} h k u = ground (arith, find-select p q xs {a = a}, find-few p q xs)

find-insert :
    (p : WelcomeMailOutbox → Bool) (e : WelcomeMailOutbox) (xs : List WelcomeMailOutbox)
    → find p (e ∷ xs) ≡ none
    → find p (insert_by_creation e xs) ≡ none
unfolding find insert_by_creation
find-insert p e [] h = h
find-insert p e (x ∷ xs) h = ground (arith, find-insert p e xs)

pub find-order :
    (p : WelcomeMailOutbox → Bool) (xs : List WelcomeMailOutbox)
    → find p xs ≡ none
    → find p (order_by_creation xs) ≡ none
unfolding find order_by_creation
find-order p [] h = refl
find-order p (x ∷ xs) h = find-insert p x (order_by_creation xs) (ground (arith, find-order p xs))

pub find-take :
    (p : WelcomeMailOutbox → Bool) (n : ℕ) (xs : List WelcomeMailOutbox)
    → find p xs ≡ none
    → find p (take n xs) ≡ none
unfolding find
find-take p zero xs h = refl
find-take p (suc n) [] h = refl
find-take p (suc n) (x ∷ xs) h = ground (arith, find-take p n xs)

pub find-none-map :
    (p : WelcomeMailOutbox → Bool) (f : WelcomeMailOutbox → WelcomeMailOutbox)
    (xs : List WelcomeMailOutbox)
    → ((x : WelcomeMailOutbox) → p (f x) ≡ p x)
    → find p xs ≡ none
    → find p (map f xs) ≡ none
unfolding find
find-none-map p f [] k h = refl
find-none-map p f (x ∷ xs) k h = ground (arith, k x, find-none-map p f xs k)

pub find-appended :
    (p : WelcomeMailOutbox → Bool) (xs ys : List WelcomeMailOutbox) {a : WelcomeMailOutbox}
    → find p xs ≡ some a
    → find p (xs ++ ys) ≡ some a
unfolding find
find-appended p [] ys h = cc
find-appended p (x ∷ xs) ys {a} h = ground (arith, find-appended p xs ys {a = a})

pub count-same :
    (p : WelcomeMailOutbox → Bool) (f : WelcomeMailOutbox → WelcomeMailOutbox)
    (xs : List WelcomeMailOutbox)
    → ((x : WelcomeMailOutbox) → p (f x) ≡ p x)
    → count p (map f xs) ≡ count p xs
unfolding count
count-same p f [] h = refl
count-same p f (x ∷ xs) h = ground (arith, h x, count-same p f xs h)

-- What was selected passes the test.
pub All-selected :
    (q : WelcomeMailOutbox → Bool) (xs : List WelcomeMailOutbox)
    → All (λ x. q x ≡ true) (select q xs)
unfolding select
All-selected q [] = tt
All-selected q (x ∷ xs) = elim (Bool-cases (q x)) [
  | inl passes ↦ rw passes (passes, All-selected q xs)
  | inr fails ↦ rw fails (All-selected q xs)
]

module _ (P : WelcomeMailOutbox → Type 0) where
  pub All-find :
      (p : WelcomeMailOutbox → Bool) (xs : List WelcomeMailOutbox) {a : WelcomeMailOutbox}
      → All P xs
      → find p xs ≡ some a
      → P a
  unfolding find
  All-find p [] h k = cc
  All-find p (x ∷ xs) {a} h k = elim (Bool-cases (p x)) [
    | inl passes ↦ let same : x ≡ a = cc in subst P same (h.0)
    | inr no_match ↦ All-find p xs (h.1) (ground (arith, no_match))
  ]

  pub All-map :
      (Q : WelcomeMailOutbox → Type 0) (f : WelcomeMailOutbox → WelcomeMailOutbox)
      (xs : List WelcomeMailOutbox)
      → ((x : WelcomeMailOutbox) → Q x → P (f x))
      → All Q xs
      → All P (map f xs)
  All-map Q f [] k h = tt
  All-map Q f (x ∷ xs) k h = (k x (h.0), All-map Q f xs k (h.1))

  All-insert :
      (e : WelcomeMailOutbox) (xs : List WelcomeMailOutbox)
      → P e
      → All P xs
      → All P (insert_by_creation e xs)
  unfolding insert_by_creation
  All-insert e [] h k = (h, tt)
  All-insert e (x ∷ xs) h k = elim (Bool-cases (leb e.created_at x.created_at)) [
    | inl earlier ↦ rw earlier (h, k)
    | inr later ↦ rw later (k.0, All-insert e xs h (k.1))
  ]

  pub All-order : (xs : List WelcomeMailOutbox) → All P xs → All P (order_by_creation xs)
  unfolding order_by_creation
  All-order [] h = tt
  All-order (x ∷ xs) h = All-insert x (order_by_creation xs) (h.0) (All-order xs (h.1))

  pub All-take : (n : ℕ) (xs : List WelcomeMailOutbox) → All P xs → All P (take n xs)
  All-take zero xs h = tt
  All-take (suc n) [] h = tt
  All-take (suc n) (x ∷ xs) h = (h.0, All-take n xs (h.1))
