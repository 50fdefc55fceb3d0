-- ===== src/Articles/Hydrator/Counts.antt =====
-- The favourites and follows of a page of articles, by group, are those of each article.
use nest_js_tutorial.Base.{
  ℕ, ◌≡◌, refl, sym, ap, ◌∙◌, Bool, true, false, ◌&&◌, Option, none, some, Text, ◌==◌, ==_iff, List,
  [], ◌∷◌, map, any, select, count, ltb, arith, if◌then◌else◌, Option-cases, inl, inr, decimal,
  decimal-value, decimal-digits,
}
use nest_js_tutorial.Database.{Db, ArticleFavorite, UserFollow}
use nest_js_tutorial.Articles.Tags.{contains, unique_article_tag_names}
use nest_js_tutorial.Articles.Tags.Unique.{unique_article_tag_names_lem}
use nest_js_tutorial.Articles.Read.{favorites_count, has_favorite, has_follow}
use nest_js_tutorial.Articles.Hydrator.{
  get, or_else, RawCount, safe_count, parse_favorites_count, Favorites, FavoritesRow, no_favorites,
  favorited_column, favorites_row, favorites_rows, favorites_of, followed_among,
}

count-any {ℓ} : {A : Type ℓ} (p : A → Bool) (xs : List A) → ltb 0 (count p xs) ≡ any p xs
unfolding count
count-any p [] = refl
count-any p (x ∷ xs) = ground (arith, count-any p xs)

count_absent {ℓ} : {A : Type ℓ} (p : A → Bool) (xs : List A) → any p xs ≡ false → count p xs ≡ 0
unfolding count
count_absent p [] h = refl
count_absent p (x ∷ xs) h = ground (arith, count_absent p xs)

any_narrower {ℓ} :
    {A : Type ℓ} (p q : A → Bool) (xs : List A)
    → any p xs ≡ false
    → any (λ x. p x && q x) xs ≡ false
any_narrower p q [] h = refl
any_narrower p q (x ∷ xs) h = ground (arith, any_narrower p q xs)

-- A count comes back from its text, if it is a safe integer.
pub parse-decimal : (n : ℕ) → parse_favorites_count (RawCount.text (decimal n)) ≡ safe_count n
unfolding parse_favorites_count
parse-decimal n = rw (decimal-digits n, decimal-value n) refl

safe_count-some : (n m : ℕ) → safe_count n ≡ some m → m ≡ n
safe_count-some n m h = ground arith

-- What a map has for an article in its groups.
abbrev entry : Option Text → List ArticleFavorite → Text → Favorites
entry viewer_id favorites id = record {
  favorites_count = count (λ f. ArticleFavorite.article_id f == id) favorites;
  favorited = favorited_column viewer_id id favorites;
}

favorites_of-cons :
    (row : FavoritesRow) (rows : List FavoritesRow) (entries : List (Text × Favorites))
    → favorites_of (row ∷ rows) ≡ some entries
    → (n : ℕ) × (rest : List (Text × Favorites)) × (parse_favorites_count row.favorites_count
        ≡ some n)
      × (favorites_of rows ≡ some rest)
      × (entries
          ≡ (row.article_id, record { favorites_count = n; favorited = row.favorited }) ∷ rest)
unfolding favorites_of
favorites_of-cons row rows entries h =
    elim (Option-cases (parse_favorites_count row.favorites_count)) [
      | inl bad ↦ ground arith
      | inr (n, read) ↦ elim (Option-cases (favorites_of rows)) [
        | inl bad ↦ ground arith
        | inr (rest, others) ↦ (n, rest, read, others, ground arith)
      ]
    ]

-- The count and the flag of a group with a given key.
same_entry :
    (viewer_id : Option Text) (favorites : List ArticleFavorite) (g id : Text) (n : ℕ)
    → g ≡ id
    → n ≡ count (λ f. ArticleFavorite.article_id f == g) favorites
    → ◌≡◌ {A = Favorites}
        (record { favorites_count = n; favorited = favorited_column viewer_id g favorites })
        (entry viewer_id favorites id)
same_entry viewer_id favorites g id n p q =
    (λ i. record { favorites_count = q i; favorited = favorited_column viewer_id g favorites })
    ∙ ap (entry viewer_id favorites) p

module _ (viewer_id : Option Text) (favorites : List ArticleFavorite) (id : Text) where
  get-group :
      (g : Text) (n : ℕ) (groups : List Text) (rest : List (Text × Favorites))
      → n ≡ count (λ f. ArticleFavorite.article_id f == g) favorites
      → get id rest ≡ (if contains groups id then some (entry viewer_id favorites id) else none)
      → get id (
          (g, record { favorites_count = n; favorited = favorited_column viewer_id g favorites })
          ∷ rest)
        ≡ (if contains (g ∷ groups) id then some (entry viewer_id favorites id) else none)
  unfolding get
  get-group g n groups rest counted ih =
      let same = λ (own : (g == id) ≡ true).
        same_entry viewer_id favorites g id n ((==_iff g id).0 own) counted in
      ground (arith, ih, same)

  get-favorites_of :
      (groups : List Text) (entries : List (Text × Favorites))
      → favorites_of (map (favorites_row viewer_id favorites) groups) ≡ some entries
      → get id entries ≡ (if contains groups id then some (entry viewer_id favorites id) else none)
  unfolding get favorites_of favorites_row
  get-favorites_of [] entries h = let none_left : entries ≡ [] = ground arith in rw none_left refl
  get-favorites_of (g ∷ groups) entries h =
      let rows = map (favorites_row viewer_id favorites) groups in
      let (n, rest, read, others, shape) =
        favorites_of-cons (favorites_row viewer_id favorites g) rows entries h in
      let counted = count (λ f. ArticleFavorite.article_id f == g) favorites in
      let n_eq : n ≡ counted = safe_count-some counted n (sym (parse-decimal counted) ∙ read) in
      let ih = get-favorites_of groups rest others in rw shape (get-group g n groups rest n_eq ih)

contains-map :
    (ids : List Text) (favorites : List ArticleFavorite) (id : Text)
    → contains ids id ≡ true
    → contains
        (map ArticleFavorite.article_id
          (select (λ f. contains ids (ArticleFavorite.article_id f)) favorites))
        id
      ≡ any (λ f. ArticleFavorite.article_id f == id) favorites
unfolding select
contains-map ids [] id h = refl
contains-map ids (f ∷ favorites) id h =
    let own = f.article_id == id in
    let known : own ≡ true → contains ids f.article_id ≡ true =
      λ e. rw ((==_iff f.article_id id).0 e) h in
    ground (arith, contains-map ids favorites id h, known)

-- Whether this viewer, if there is one, has favourited the article.
abbrev pub viewer_has_favorite : Option Text → Text → Db → Bool
viewer_has_favorite none id d = false
viewer_has_favorite (some viewer_id) id d = has_favorite id viewer_id d

abbrev pub viewer_has_follow : Option Text → Text → Db → Bool
viewer_has_follow none id d = false
viewer_has_follow (some viewer_id) id d = has_follow viewer_id id d

favorited_column-has_favorite :
    (viewer_id : Option Text) (id : Text) (d : Db)
    → favorited_column viewer_id id d.article_favorites ≡ viewer_has_favorite viewer_id id d
unfolding favorited_column has_favorite
favorited_column-has_favorite none id d = refl
favorited_column-has_favorite (some viewer_id) id d = count-any _ d.article_favorites

favorited_column-absent :
    (viewer_id : Option Text) (id : Text) (favorites : List ArticleFavorite)
    → any (λ f. ArticleFavorite.article_id f == id) favorites ≡ false
    → favorited_column viewer_id id favorites ≡ false
unfolding favorited_column
favorited_column-absent none id favorites h = refl
favorited_column-absent (some viewer_id) id favorites h =
    count-any _ favorites
    ∙ any_narrower (λ f. ArticleFavorite.article_id f == id)
        (λ f. ArticleFavorite.user_id f == viewer_id) favorites h

absent_entry :
    (viewer_id : Option Text) (id : Text) (favorites : List ArticleFavorite)
    → any (λ f. ArticleFavorite.article_id f == id) favorites ≡ false
    → no_favorites ≡ entry viewer_id favorites id
absent_entry viewer_id id favorites h i = record {
  favorites_count = sym (count_absent (λ f. ArticleFavorite.article_id f == id) favorites h) i;
  favorited = sym (favorited_column-absent viewer_id id favorites h) i;
}

-- What the page shows of the favourites of an article on it.
pub favorites_of-entry :
    (ids : List Text) (viewer_id : Option Text) (d : Db) (id : Text)
    (entries : List (Text × Favorites))
    → contains ids id ≡ true
    → favorites_of (favorites_rows ids viewer_id d) ≡ some entries
    → ((or_else (get id entries) no_favorites).favorites_count ≡ favorites_count id d)
      × ((or_else (get id entries) no_favorites).favorited ≡ viewer_has_favorite viewer_id id d)
unfolding favorites_rows favorites_count
favorites_of-entry ids viewer_id d id entries h k =
    let favorites = d.article_favorites in
    let listed =
      map ArticleFavorite.article_id
        (select (λ f. contains ids (ArticleFavorite.article_id f)) favorites) in
    let found =
      get-favorites_of viewer_id favorites id (unique_article_tag_names listed) entries k in
    let there = (unique_article_tag_names_lem listed).1 id ∙ contains-map ids favorites id h in
    let e : or_else (get id entries) no_favorites ≡ entry viewer_id favorites id =
      ground (arith, found, there, absent_entry viewer_id id favorites) in
    (
      ap Favorites.favorites_count e,
      ap Favorites.favorited e ∙ favorited_column-has_favorite viewer_id id d,
    )

follows_lem :
    (viewer_id : Text) (ids : List Text) (id : Text) (follows : List UserFollow)
    → contains ids id ≡ true
    → contains
        (map UserFollow.following_id (
          select
            (λ f. UserFollow.follower_id f == viewer_id && contains ids (UserFollow.following_id f))
            follows))
        id
      ≡ any (λ f. UserFollow.follower_id f == viewer_id && UserFollow.following_id f == id) follows
unfolding select
follows_lem viewer_id ids id [] h = refl
follows_lem viewer_id ids id (f ∷ follows) h =
    let own = f.following_id == id in
    let known : own ≡ true → contains ids f.following_id ≡ true =
      λ e. rw ((==_iff f.following_id id).0 e) h in
    ground (arith, follows_lem viewer_id ids id follows h, known)

-- What the page shows of the follows of an author on it.
pub followed_among-has_follow :
    (viewer_id : Text) (ids : List Text) (d : Db) (id : Text)
    → contains ids id ≡ true
    → contains (followed_among viewer_id ids d) id ≡ has_follow viewer_id id d
unfolding followed_among has_follow
followed_among-has_follow viewer_id ids d id h = follows_lem viewer_id ids id d.user_follows h
