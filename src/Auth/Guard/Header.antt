-- ===== src/Auth/Guard/Header.antt =====
-- The header `authorization`.
use nest_js_tutorial.Base.{
  ℕ, ◌≡◌, refl, ap, Bool, true, false, not, ◌&&◌, some, Text, codes, ◌==◌, List, [], ◌∷◌, ◌++◌,
  arith, is_space, trim, trim_left, trim_right, put, all, if◌then◌else◌, Bool-cases, inl, inr,
}
use nest_js_tutorial.Auth.Guard.{
  split_spaces, starts_with_space, is_empty, token_of, accept, get_token,
}

abbrev pub has_no_space : Text → Bool
has_no_space s = all (λ c. not (is_space c)) s

parts : (a b : Bool) → (not a && b) ≡ true → (a ≡ false) × (b ≡ true)
parts false true h = (refl, refl)
parts false false h = cc
parts true b h = cc

trimmed : (c : ℕ) (s : Text) → has_no_space (c ∷ s) ≡ true → trim_right (c ∷ s) ≡ c ∷ s
unfolding trim_right
trimmed c [] h =
    let (first, rest) = parts (is_space c) true h in ap (λ b. if b then [] else c ∷ []) first
trimmed c (d ∷ s) h =
    let (first, rest) = parts (is_space c) (has_no_space (d ∷ s)) h in ap (put c) (trimmed d s rest)

split_word : (s : Text) → has_no_space s ≡ true → split_spaces s ≡ (s, [])
unfolding split_spaces
split_word [] h = refl
split_word (c ∷ s) h =
    let (first, rest) = parts (is_space c) (has_no_space s) h in simp (first, split_word s rest)

-- The header that clients send is read as its token, whatever the token is, if it is not empty and has
-- no white space.
pub get_token_lem :
    (c : ℕ) (s : Text)
    → has_no_space (c ∷ s) ≡ true
    → get_token (some (codes "Token " ++ c ∷ s)) ≡ some (c ∷ s)
unfolding get_token trim trim_left trim_right split_spaces ◌==◌
get_token_lem c s h =
    let (first, rest) = parts (is_space c) (has_no_space s) h in
    simp (trimmed c s h, first, split_word s rest)

words_lem :
    (s : Text)
    → (has_no_space (split_spaces s).0 ≡ true) × (all has_no_space (split_spaces s).1 ≡ true)
unfolding split_spaces
words_lem [] = (refl, refl)
words_lem (c ∷ s) =
    let (word, words) = words_lem s in
    elim (Bool-cases (is_space c)) [
      | inl space ↦ elim (Bool-cases (starts_with_space s)) [
        | inl again ↦ simp (space, again) (word, words)
        | inr last ↦ simp (space, last) (refl, rw word words)
      ]
      | inr other ↦ simp (other) (word, words)
    ]

abbrev pub is_token : Text → Bool
is_token t = not (is_empty t) && has_no_space t

accept_lem :
    (scheme token t : Text)
    → has_no_space token ≡ true
    → accept scheme token ≡ some t
    → is_token t ≡ true
accept_lem scheme token t h k = ground arith

conjunction : (a b : Bool) → (a && b) ≡ true → (a ≡ true) × (b ≡ true)
conjunction true true h = (refl, refl)
conjunction true false h = cc
conjunction false b h = cc

token_of_lem :
    (first : Text) (words : List Text) (t : Text)
    → all has_no_space words ≡ true
    → token_of (first, words) ≡ some t
    → is_token t ≡ true
token_of_lem first [] t h k = cc
token_of_lem first (token ∷ []) t h k =
    let (clean, rest) = conjunction (has_no_space token) true h in accept_lem first token t clean k
token_of_lem first (token ∷ extra ∷ more) t h k =
    let (clean, rest) = conjunction (has_no_space token) (all has_no_space (extra ∷ more)) h in
    elim (Bool-cases (is_empty extra)) [
      | inl empty ↦ accept_lem first token t clean (ground (arith, empty))
      | inr full ↦ let k = rw full at k in cc
    ]

-- A token that is read from a header, whatever its value, is not empty and has no white space.
pub get_token-is_token :
    (authorization t : Text) → get_token (some authorization) ≡ some t → is_token t ≡ true
unfolding get_token
get_token-is_token authorization t h = token_of_lem _ _ t (words_lem (trim authorization)).1 h
