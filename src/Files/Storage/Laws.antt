-- ===== src/Files/Storage/Laws.antt =====
-- Which storage keys have a path, and where it is.
use nest_js_tutorial.Base.{
  ◌+◌, ◌≤◌, ◌≡◌, refl, sym, ap, ◌∙◌, Bool, true, false, not, ◌&&◌, Option, none, some, Text, codes,
  ◌==◌, ==_iff, ==_refl, eqb, List, [], ◌∷◌, ◌++◌, any, all, length, if◌then◌else◌, arith,
  Bool-cases, inl, inr,
}
use mathlib.Core.List.{append_assoc}
use nest_js_tutorial.Files.Storage.{
  slash, pieces, segments, last_segment, basename, normalize, resolve, path_text, starts_with,
  unless, absolute, resolve_path, starts_with_slash, up,
}

abbrev pub has_slash : Text → Bool
has_slash s = any (λ c. eqb c slash) s

-- A text without a slash is one piece, and no piece has a slash.
one_piece : (s : Text) → has_slash s ≡ false → pieces s ≡ (s, [])
unfolding pieces
one_piece [] h = refl
one_piece (c ∷ s) h =
    let first : eqb c slash ≡ false = ground arith in
    let rest : has_slash s ≡ false = ground arith in rw first (rw (one_piece s rest) refl)

abbrev no_slash : Text → Bool
no_slash s = not (has_slash s)

pieces-no_slash : (s : Text) → (no_slash (pieces s).0 ≡ true) × (all no_slash (pieces s).1 ≡ true)
unfolding pieces
pieces-no_slash [] = (refl, refl)
pieces-no_slash (c ∷ s) = let ih = pieces-no_slash s in (ground (arith, ih), ground (arith, ih))

last_segment-no_slash :
    (found : Text) (ss : List Text)
    → no_slash found ≡ true
    → all no_slash ss ≡ true
    → no_slash (last_segment found ss) ≡ true
unfolding last_segment
last_segment-no_slash found [] h k = h
last_segment-no_slash found (s ∷ ss) h k =
    let next : no_slash (if s == [] then found else s) ≡ true = ground arith in
    last_segment-no_slash (if s == [] then found else s) ss next (ground arith)

basename-no_slash : (s : Text) → no_slash (basename s) ≡ true
unfolding basename
basename-no_slash s =
    let p = pieces-no_slash s in last_segment-no_slash [] (segments s) refl (ground (arith, p))

-- A name that stands for itself in a directory.
abbrev pub is_plain : Text → Bool
is_plain s = not (has_slash s) && (not (s == []) && (not (s == codes ".") && not (s == codes "..")))

starts_with-length : (s t : Text) → starts_with s t ≡ true → length s ≤ length t
unfolding starts_with
starts_with-length [] t h = omega arith
starts_with-length (c ∷ s) [] h = cc
starts_with-length (c ∷ s) (d ∷ t) h = ground (arith, starts_with-length s t)

starts_with-append : (s t : Text) → starts_with s (s ++ t) ≡ true
unfolding starts_with
starts_with-append [] t = refl
starts_with-append (c ∷ s) t = ground (arith, starts_with-append s t)

length-append : (s t : Text) → length (s ++ t) ≡ length s + length t
length-append [] t = omega arith
length-append (c ∷ s) t = omega (arith, length-append s t)

too_short : (s t : Text) → length t ≤ length s → starts_with (s ++ slash ∷ []) t ≡ false
too_short s t h = elim (Bool-cases (starts_with (s ++ slash ∷ []) t)) [
  | inl it ↦
      let le = starts_with-length (s ++ slash ∷ []) t it in
      let n = length-append s (slash ∷ []) in absurd (omega (arith, le, n, h))
  | inr other ↦ other
]

first_no_slash : (s : Text) → has_slash s ≡ false → starts_with_slash s ≡ false
first_no_slash [] h = refl
first_no_slash (c ∷ s) h = ground arith

abbrev step_into : List Text → Text → List Text
step_into root s = if s == codes "." then root else if s == codes ".." then up root else s ∷ root

resolve_one :
    (root : List Text) (s : Text)
    → has_slash s ≡ false
    → s == [] ≡ false
    → resolve root s ≡ step_into root s
unfolding resolve normalize
resolve_one root s h k = rw (first_no_slash s h, one_piece s h, k) refl

basename_one : (s : Text) → has_slash s ≡ false → s == [] ≡ false → basename s ≡ s
unfolding basename last_segment
basename_one s h k = rw (one_piece s h, k) refl

up-length : (r : Text) (rs : List Text) → length (absolute rs) ≤ length (absolute (r ∷ rs))
unfolding absolute path_text
up-length r [] = omega arith
up-length r (q ∷ rs) = let n = length-append (path_text (q ∷ rs)) (slash ∷ r) in ground (arith, n)

inside :
    (r : Text) (rs : List Text) (s : Text)
    → starts_with (absolute (r ∷ rs) ++ slash ∷ []) (absolute (s ∷ r ∷ rs)) ≡ true
unfolding absolute path_text
inside r rs s =
    let root = path_text rs ++ slash ∷ r in
    ap (starts_with (root ++ slash ∷ [])) (sym (append_assoc root (slash ∷ []) s))
    ∙ starts_with-append (root ++ slash ∷ []) s

module _ (r : Text) (rs : List Text) where
  abbrev accepted : Text → List Text → Option Text
  accepted s path =
      unless (not (starts_with (absolute (r ∷ rs) ++ slash ∷ []) (absolute path))) (absolute path)

  -- What is left of the check of a key without a slash.
  checked :
      (s : Text)
      → has_slash s ≡ false
      → s == [] ≡ false
      → resolve_path (r ∷ rs) s ≡ accepted s (step_into (r ∷ rs) s)
  unfolding resolve_path
  checked s h k = rw (basename_one s h k, k, ==_refl s, resolve_one (r ∷ rs) s h k) refl

  refused_slash : (s : Text) → has_slash s ≡ true → resolve_path (r ∷ rs) s ≡ none
  unfolding resolve_path
  refused_slash s h =
      let other : basename s == s ≡ false = elim (Bool-cases (basename s == s)) [
        | inl same ↦
            let e = (==_iff (basename s) s).0 same in
            let none_there = basename-no_slash s in let twice = ap no_slash e in cc
        | inr differs ↦ differs
      ] in
      elim (Bool-cases (s == [])) [
        | inl empty ↦ rw empty refl
        | inr some_name ↦ rw (some_name, other) refl
      ]

  refused_empty : (s : Text) → s == [] ≡ true → resolve_path (r ∷ rs) s ≡ none
  unfolding resolve_path
  refused_empty s h = rw h refl

  joined : (s : Text) → some (absolute (s ∷ r ∷ rs)) ≡ some (absolute (r ∷ rs) ++ slash ∷ s)
  unfolding absolute path_text
  joined s = refl

  -- The three places that a name without a slash leads to.
  placed :
      (s : Text)
      → accepted s (step_into (r ∷ rs) s) ≡ (
          if not (s == codes ".") && not (s == codes "..")
          then some (absolute (r ∷ rs) ++ slash ∷ s)
          else none)
  placed s = elim (Bool-cases (s == codes ".")) [
    | inl here ↦ rw (here, too_short (absolute (r ∷ rs)) (absolute (r ∷ rs)) (omega arith)) refl
    | inr not_here ↦ elim (Bool-cases (s == codes "..")) [
      | inl above ↦
          rw (not_here, above, too_short (absolute (r ∷ rs)) (absolute rs) (up-length r rs)) refl
      | inr name ↦ rw (not_here, name, inside r rs s) (joined s)
    ]
  ]

  -- A storage key has a path if and only if it is a plain name: not empty, with no slash, and neither
  -- `.` nor `..`; and then the path is that name in the root of the storage, if that is not the root of
  -- the file system.
  pub resolve_path_lem :
      (s : Text)
      → resolve_path (r ∷ rs) s
        ≡ (if is_plain s then some (absolute (r ∷ rs) ++ slash ∷ s) else none)
  resolve_path_lem s = elim (Bool-cases (has_slash s)) [
    | inl slashed ↦ rw slashed (refused_slash s slashed)
    | inr plain ↦ elim (Bool-cases (s == [])) [
      | inl empty ↦ rw (plain, empty) (refused_empty s empty)
      | inr some_name ↦ checked s plain some_name ∙ rw (plain, some_name) (placed s)
    ]
  ]
