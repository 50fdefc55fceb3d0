-- ===== src/Articles/Slug/Shape.antt =====
-- The shape of every slug.
use nest_js_tutorial.Base.{
  ℕ, ◌≡◌, refl, ◌≤◌, none, Bool, true, false, ◌||◌, Text, [], ◌∷◌, ◌++◌, take, length, zero, suc,
  eqb, All, arith, Bool-cases, inl, inr,
}
use nest_js_tutorial.Articles.Slug.{
  Unicode, remove_marks, is_word, hyphen, hyphenate, trim_start, trim_end, push_front, slug_base,
  or_article, create_article_slug,
}

abbrev pub is_slug_char : ℕ → Bool
is_slug_char c = is_word c || eqb c hyphen

abbrev pub starts_with_hyphen : Text → Bool
starts_with_hyphen [] = false
starts_with_hyphen (c ∷ cs) = eqb c hyphen

abbrev pub ends_with_hyphen : Text → Bool
ends_with_hyphen [] = false
ends_with_hyphen (c ∷ []) = eqb c hyphen
ends_with_hyphen (c ∷ d ∷ ds) = ends_with_hyphen (d ∷ ds)

abbrev IsSlugText : Text → Type 0
IsSlugText = All (λ c. is_slug_char c ≡ true)

-- 1 to 80 lower-case letters, digits and hyphens, with no hyphen at either end.
pub record IsSlugBase (s : Text) : Type 0 where
  pub characters : All (λ c. is_slug_char c ≡ true) s
  pub not_empty : 1 ≤ length s
  pub short : length s ≤ 80
  pub first : starts_with_hyphen s ≡ false
  pub last : ends_with_hyphen s ≡ false

hyphenate-IsSlugText : (b : Bool) (s : Text) → IsSlugText (hyphenate b s)
unfolding hyphenate
hyphenate-IsSlugText b [] = tt
hyphenate-IsSlugText b (c ∷ cs) = elim (Bool-cases (is_word c)) [
  | inl word ↦ rw word (rw word refl, hyphenate-IsSlugText false cs)
  | inr other ↦ elim (Bool-cases b) [
    | inl again ↦ rw (other, again) (hyphenate-IsSlugText true cs)
    | inr new ↦ rw (other, new) (refl, hyphenate-IsSlugText true cs)
  ]
]

trim_start-IsSlugText : (s : Text) → IsSlugText s → IsSlugText (trim_start s)
unfolding trim_start
trim_start-IsSlugText [] h = tt
trim_start-IsSlugText (c ∷ cs) h = elim (Bool-cases (eqb c hyphen)) [
  | inl cut ↦ rw cut (trim_start-IsSlugText cs h.1)
  | inr kept ↦ rw kept h
]

trim_start-starts : (s : Text) → starts_with_hyphen (trim_start s) ≡ false
unfolding trim_start
trim_start-starts [] = refl
trim_start-starts (c ∷ cs) = ground (arith, trim_start-starts cs)

push_front-IsSlugText :
    (c : ℕ) (s : Text) → is_slug_char c ≡ true → IsSlugText s → IsSlugText (push_front c s)
unfolding push_front
push_front-IsSlugText c [] h k = elim (Bool-cases (eqb c hyphen)) [
  | inl cut ↦ rw cut tt
  | inr kept ↦ rw kept (h, tt)
]
push_front-IsSlugText c (d ∷ ds) h k = (h, k)

trim_end-IsSlugText : (s : Text) → IsSlugText s → IsSlugText (trim_end s)
unfolding trim_end
trim_end-IsSlugText [] h = tt
trim_end-IsSlugText (c ∷ cs) h =
    push_front-IsSlugText c (trim_end cs) h.0 (trim_end-IsSlugText cs h.1)

push_front-length : (c : ℕ) (s : Text) → length (push_front c s) ≤ suc (length s)
unfolding push_front
push_front-length c [] = ground arith
push_front-length c (d ∷ ds) = omega arith

trim_end-length : (s : Text) → length (trim_end s) ≤ length s
unfolding trim_end
trim_end-length [] = omega arith
trim_end-length (c ∷ cs) = omega (arith, push_front-length c (trim_end cs), trim_end-length cs)

push_front-starts :
    (c : ℕ) (s : Text) → eqb c hyphen ≡ false → starts_with_hyphen (push_front c s) ≡ false
unfolding push_front
push_front-starts c [] h = rw h h
push_front-starts c (d ∷ ds) h = h

trim_end-starts :
    (s : Text) → starts_with_hyphen s ≡ false → starts_with_hyphen (trim_end s) ≡ false
unfolding trim_end
trim_end-starts [] h = refl
trim_end-starts (c ∷ cs) h = push_front-starts c (trim_end cs) h

push_front-ends :
    (c : ℕ) (s : Text) → ends_with_hyphen s ≡ false → ends_with_hyphen (push_front c s) ≡ false
unfolding push_front
push_front-ends c [] h = elim (Bool-cases (eqb c hyphen)) [
  | inl cut ↦ rw cut
  | inr kept ↦ rw kept kept
]
push_front-ends c (d ∷ ds) h = h

trim_end-ends : (s : Text) → ends_with_hyphen (trim_end s) ≡ false
unfolding trim_end
trim_end-ends [] = refl
trim_end-ends (c ∷ cs) = push_front-ends c (trim_end cs) (trim_end-ends cs)

take-IsSlugText : (n : ℕ) (s : Text) → IsSlugText s → IsSlugText (take n s)
take-IsSlugText zero s h = tt
take-IsSlugText (suc n) [] h = tt
take-IsSlugText (suc n) (c ∷ cs) h = (h.0, take-IsSlugText n cs h.1)

take-length : (n : ℕ) (s : Text) → length (take n s) ≤ n
take-length zero s = omega arith
take-length (suc n) [] = omega arith
take-length (suc n) (c ∷ cs) = omega (arith, take-length n cs)

take-starts :
    (n : ℕ) (s : Text) → starts_with_hyphen s ≡ false → starts_with_hyphen (take n s) ≡ false
take-starts zero s h = refl
take-starts (suc n) [] h = refl
take-starts (suc n) (c ∷ cs) h = h

abbrev IsTrimmed : Text → Type 0
IsTrimmed s =
    IsSlugText s × (length s ≤ 80) × (starts_with_hyphen s ≡ false) × (ends_with_hyphen s ≡ false)

cut-IsTrimmed : (s : Text) → IsSlugText s → IsTrimmed (trim_end (take 80 (trim_end (trim_start s))))
cut-IsTrimmed s h =
    let t = trim_end (trim_start s) in
    (
      trim_end-IsSlugText (take 80 t)
          (take-IsSlugText 80 t (trim_end-IsSlugText (trim_start s) (trim_start-IsSlugText s h))),
      omega (arith, trim_end-length (take 80 t), take-length 80 t),
      trim_end-starts (take 80 t)
          (take-starts 80 t (trim_end-starts (trim_start s) (trim_start-starts s))),
      trim_end-ends (take 80 t),
    )

or_article-IsSlugBase : (s : Text) → IsTrimmed s → IsSlugBase (or_article s)
or_article-IsSlugBase [] h = record {
  characters = ground arith;
  not_empty = omega arith;
  short = omega arith;
  first = refl;
  last = refl;
}
or_article-IsSlugBase (c ∷ cs) h = record {
  characters = h.0;
  not_empty = omega arith;
  short = h.1;
  first = h.2;
  last = h.3;
}

-- Whatever the title and whatever Unicode does, a slug is 1 to 80 lower-case ASCII letters, digits and
-- hyphens with no hyphen at either end, then a hyphen and the id.
pub create_article_slug-IsSlugBase :
    (unicode : Unicode) (title id : Text)
    → (base : Text) × (create_article_slug unicode title id ≡ base ++ hyphen ∷ id) × IsSlugBase base
unfolding create_article_slug slug_base
create_article_slug-IsSlugBase unicode title id =
    let letters = remove_marks unicode.is_mark none (unicode.nfkd title) in
    let words = hyphenate false (unicode.to_lower_case letters) in
    (
      or_article (slug_base unicode title),
      refl,
      or_article-IsSlugBase _
          (cut-IsTrimmed words (hyphenate-IsSlugText false (unicode.to_lower_case letters))),
    )
