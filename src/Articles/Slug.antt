-- ===== src/Articles/Slug.antt =====
-- createArticleSlug (articles/article-create-slug.ts), over UTF-16 code units, of which `\p{M}` with
-- the flag u reads whole code points.
pub mod Shape
use nest_js_tutorial.Base.{
  ℕ, ◌+◌, ◌-◌, ◌*◌, Option, none, some, Bool, true, false, not, ◌&&◌, ◌||◌, Text, codes, List, [],
  ◌∷◌, ◌++◌, take, leb, eqb, if◌then◌else◌,
}
use mathlib.Core.List.{reverse}

-- What the code takes of Unicode from JavaScript: `normalize('NFKD')`, the class `\p{M}` on code
-- points, and `toLowerCase`.
pub record Unicode : Type 0 where
  pub nfkd : Text → Text
  pub is_mark : ℕ → Bool
  pub to_lower_case : Text → Text

-- The two halves of a code point that UTF-16 writes in two units, and the code point.
abbrev is_high : ℕ → Bool
is_high c = leb 55296 c && leb c 56319

abbrev is_low : ℕ → Bool
is_low c = leb 56320 c && leb c 57343

abbrev code_point : ℕ → ℕ → ℕ
code_point high low = 65536 + (high - 55296) * 1024 + (low - 56320)

-- The units before `rest`, left out if their code point is a mark.
abbrev unless_mark : Bool → Text → Text → Text
unless_mark mark units rest = if mark then rest else units ++ rest

-- `.replace(COMBINING_MARKS, '')`. The first argument is a high half just read, which belongs to the
-- next unit if that is a low half, and is a code point of its own otherwise.
unfoldable pub remove_marks : (ℕ → Bool) → Option ℕ → Text → Text
remove_marks is_mark none [] = []
remove_marks is_mark (some h) [] = unless_mark (is_mark h) (h ∷ []) []
remove_marks is_mark none (c ∷ cs) =
    let rest = remove_marks is_mark (if is_high c then some c else none) cs in
    if is_high c then rest else unless_mark (is_mark c) (c ∷ []) rest
remove_marks is_mark (some h) (c ∷ cs) =
    let rest = remove_marks is_mark (if is_high c then some c else none) cs in
    if is_low c
    then unless_mark (is_mark (code_point h c)) (h ∷ c ∷ []) rest
    else unless_mark (is_mark h) (h ∷ [])
        (if is_high c then rest else unless_mark (is_mark c) (c ∷ []) rest)

-- `[a-z0-9]`
abbrev pub is_word : ℕ → Bool
is_word c = (leb b'a' c && leb c b'z') || (leb b'0' c && leb c b'9')

abbrev pub hyphen : ℕ
hyphen = b'-'

-- `.replace(/[^a-z0-9]+/g, '-')`: each run of other characters becomes one hyphen. The flag says that
-- the run has been replaced already.
unfoldable pub hyphenate : Bool → Text → Text
hyphenate replaced [] = []
hyphenate replaced (c ∷ cs) =
    let rest = hyphenate (not (is_word c)) cs in
    if is_word c then c ∷ rest else if replaced then rest else hyphen ∷ rest

-- `.replace(/^-+/, '')`
unfoldable pub trim_start : Text → Text
trim_start [] = []
trim_start (c ∷ cs) = let rest = trim_start cs in if eqb c hyphen then rest else c ∷ cs

-- A character in front of a text without hyphens at its end.
unfoldable pub push_front : ℕ → Text → Text
push_front c [] = if eqb c hyphen then [] else c ∷ []
push_front c (d ∷ ds) = c ∷ d ∷ ds

-- `.replace(/-+$/, '')`
unfoldable pub trim_end : Text → Text
trim_end [] = []
trim_end (c ∷ cs) = push_front c (trim_end cs)

-- MAX_SLUG_BASE_LENGTH
abbrev pub max_slug_base_length : ℕ
max_slug_base_length = 80

-- `base || 'article'`
abbrev pub or_article : Text → Text
or_article [] = codes "article"
or_article (c ∷ cs) = c ∷ cs

module _ (unicode : Unicode) where
  unfoldable pub slug_base : Text → Text
  unfolding remove_marks hyphenate trim_start push_front trim_end
  slug_base title =
      let letters = remove_marks unicode.is_mark none (unicode.nfkd title) in
      let words = hyphenate false (unicode.to_lower_case letters) in
      trim_end (take max_slug_base_length (trim_end (trim_start words)))

  -- The id is what `createId` returned.
  unfoldable pub create_article_slug : Text → Text → Text
  unfolding slug_base
  create_article_slug title id = or_article (slug_base title) ++ hyphen ∷ id
