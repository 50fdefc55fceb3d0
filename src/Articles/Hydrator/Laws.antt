-- ===== src/Articles/Hydrator/Laws.antt =====
-- A page that is hydrated by three queries shows what a request for each article alone would show.
use nest_js_tutorial.Base.{
  ◌≡◌, refl, sym, ap, ◌∙◌, Bool, true, Option, none, some, Text, ==_refl, List, [], ◌∷◌, map, all,
  arith,
}
use nest_js_tutorial.Runtime.{returned}
use nest_js_tutorial.Runtime.Inversion.{after-returned, pure-returned}
use nest_js_tutorial.Database.{Db, User, Article, Orm, World}
use nest_js_tutorial.Database.Statements.{query-returned}
use nest_js_tutorial.Database.Steps.{query-step}
use nest_js_tutorial.Serializers.{ArticleSerializationContext}
use nest_js_tutorial.Articles.Tags.{contains, unique_article_tag_names, ordered_tag_names}
use nest_js_tutorial.Articles.Tags.Unique.{unique_article_tag_names_lem}
use nest_js_tutorial.Articles.Read.{favorites_count}
use nest_js_tutorial.Articles.Hydrator.{
  Favorites, tag_rows, group_names, favorites_rows, favorites_of, followed_among, hydrated_context,
  hydrated, article_ids, author_ids, or_invalid_count, load_tags, load_favorites,
  load_following_authors, hydrate,
}
use nest_js_tutorial.Articles.Hydrator.Groups.{group_names-ordered}
use nest_js_tutorial.Articles.Hydrator.Counts.{
  viewer_has_favorite, viewer_has_follow, favorites_of-entry, followed_among-has_follow,
}

-- An article as a request for it alone shows it.
abbrev pub own_context : Option Text → Db → Article × User → ArticleSerializationContext
own_context viewer_id d (article, author) = record {
  tags = ordered_tag_names article.id d;
  favorited = viewer_has_favorite viewer_id article.id d;
  favorites_count = favorites_count article.id d;
  author_following = viewer_has_follow viewer_id author.id d;
}

abbrev pub own_contexts :
    Option Text → Db → List (Article × User) → List (Article × User × ArticleSerializationContext)
own_contexts viewer_id d [] = []
own_contexts viewer_id d (row ∷ rows) =
    (row.0, row.1, own_context viewer_id d row) ∷ own_contexts viewer_id d rows

-- The set of the authors whom the viewer follows.
abbrev following_of : Option Text → List Text → Db → List Text
following_of none ids d = []
following_of (some viewer_id) ids d = followed_among viewer_id ids d

following_of-has_follow :
    (viewer_id : Option Text) (ids : List Text) (d : Db) (id : Text)
    → contains ids id ≡ true
    → contains (following_of viewer_id ids d) id ≡ viewer_has_follow viewer_id id d
following_of-has_follow none ids d id h = refl
following_of-has_follow (some viewer_id) ids d id h = followed_among-has_follow viewer_id ids d id h

module _ (ids authors : List Text) (viewer_id : Option Text) (d : Db)
    (entries : List (Text × Favorites))
    (counted : favorites_of (favorites_rows ids viewer_id d) ≡ some entries) where
  -- One article of the page.
  hydrated_context-own :
      (row : Article × User)
      → contains ids (Article.id row.0) ≡ true
      → contains authors (User.id row.1) ≡ true
      → hydrated_context
          (group_names [] (tag_rows ids d))
          entries
          (following_of viewer_id authors d)
          row
        ≡ own_context viewer_id d row
  unfolding hydrated_context
  hydrated_context-own (article, author) h k =
      let tags = group_names-ordered article.id ids d h in
      let (n, favorited) = favorites_of-entry ids viewer_id d article.id entries h counted in
      let follows = following_of-has_follow viewer_id authors d author.id k in
      λ i. record {
        tags = tags i;
        favorited = favorited i;
        favorites_count = n i;
        author_following = follows i;
      }

  abbrev is_among : Article × User → Bool
  is_among row = contains ids (Article.id row.0)

  abbrev author_among : Article × User → Bool
  author_among row = contains authors (User.id row.1)

  hydrated-own :
      (rows : List (Article × User))
      → all is_among rows ≡ true
      → all author_among rows ≡ true
      → hydrated (group_names [] (tag_rows ids d)) entries (following_of viewer_id authors d) rows
        ≡ own_contexts viewer_id d rows
  unfolding hydrated
  hydrated-own [] h k = refl
  hydrated-own (row ∷ rows) h k =
      let here : is_among row ≡ true = ground arith in
      let author_here : author_among row ≡ true = ground arith in
      let same = hydrated_context-own row here author_here in
      let rest = hydrated-own rows (ground arith) (ground arith) in
      λ i. (row.0, row.1, same i) ∷ rest i

all_wider {ℓ} :
    {A : Type ℓ} (p q : A → Bool) (xs : List A)
    → ((x : A) → p x ≡ true → q x ≡ true)
    → all p xs ≡ true
    → all q xs ≡ true
all_wider p q [] w h = refl
all_wider p q (x ∷ xs) w h = ground (arith, w x, all_wider p q xs w)

all_listed {ℓ} :
    {A : Type ℓ} (f : A → Text) (xs : List A) → all (λ x. contains (map f xs) (f x)) xs ≡ true
all_listed f [] = refl
all_listed f (x ∷ xs) =
    let ih =
      all_wider (λ y. contains (map f xs) (f y)) (λ y. contains (f x ∷ map f xs) (f y)) xs
        (λ y k. ground arith) (all_listed f xs) in
    ground (arith, ih, ==_refl (f x))

all_listed_once {ℓ} :
    {A : Type ℓ} (f : A → Text) (xs : List A)
    → all (λ x. contains (unique_article_tag_names (map f xs)) (f x)) xs ≡ true
all_listed_once f xs =
    all_wider (λ x. contains (map f xs) (f x))
      (λ x. contains (unique_article_tag_names (map f xs)) (f x)) xs
      (λ x k. (unique_article_tag_names_lem (map f xs)).1 (f x) ∙ k) (all_listed f xs)

or_invalid_count-returned :
    {S A : Type 0} (o : Option A) (s s' : S) (a : A)
    → or_invalid_count o s ≡ (returned a, s')
    → (o ≡ some a) × (s ≡ s')
or_invalid_count-returned none s s' a h = cc
or_invalid_count-returned (some b) s s' a h = (cc, cc)

module _ (orm : Orm) where
  load_tags-returned :
      (ids : List Text) (w w' : World orm.Env) (tags : List (Text × List Text))
      → load_tags orm ids w ≡ (returned tags, w')
      → (tags ≡ group_names [] (tag_rows ids w.db)) × (w'.db ≡ w.db)
  unfolding load_tags
  load_tags-returned ids w w' tags h =
      let (t, same, h) = query-step orm _ w (tag_rows ids) h in
      let (shows, ends) = pure-returned (group_names [] (tag_rows ids w.db)) tags t w' h in
      (shows, ap World.db ends ∙ same)

  load_favorites-returned :
      (ids : List Text) (viewer_id : Option Text) (w w' : World orm.Env)
      (entries : List (Text × Favorites))
      → load_favorites orm ids viewer_id w ≡ (returned entries, w')
      → (favorites_of (favorites_rows ids viewer_id w.db) ≡ some entries) × (w'.db ≡ w.db)
  unfolding load_favorites
  load_favorites-returned ids viewer_id w w' entries h =
      let (t, same, h) = query-step orm _ w (favorites_rows ids viewer_id) h in
      let (read, ends) = or_invalid_count-returned _ t w' entries h in
      (read, ap World.db (sym ends) ∙ same)

  load_following_authors-returned :
      (viewer_id : Option Text) (ids : List Text) (w w' : World orm.Env) (following : List Text)
      → load_following_authors orm viewer_id ids w ≡ (returned following, w')
      → (following ≡ following_of viewer_id ids w.db) × (w'.db ≡ w.db)
  unfolding load_following_authors
  load_following_authors-returned none ids w w' following h =
      let (shows, ends) = pure-returned [] following w w' h in (shows, ap World.db ends)
  load_following_authors-returned (some viewer_id) ids w w' following h =
      let (shows, same) = query-returned orm (followed_among viewer_id ids) w h in (sym shows, same)

  -- Whatever the driver does, if a page is hydrated then no row has changed, and each article on it has
  -- the ordered tags, the number of favourites and what the viewer has favourited and follows, as they
  -- are stored.
  pub hydrate_returned :
      (rows : List (Article × User)) (viewer_id : Option Text) (w w' : World orm.Env)
      (r : List (Article × User × ArticleSerializationContext))
      → hydrate orm rows viewer_id w ≡ (returned r, w')
      → (r ≡ own_contexts viewer_id w.db rows) × (w'.db ≡ w.db)
  unfolding hydrate
  hydrate_returned [] viewer_id w w' r h =
      let (shows, ends) = pure-returned [] r w w' h in (shows, ap World.db ends)
  hydrate_returned (row ∷ rows) viewer_id w w' r h =
      let page = row ∷ rows in
      let ids = article_ids page in
      let authors = author_ids page in
      let (tags, t, run, h) = after-returned (load_tags orm ids w) _ h in
      let (tagged, s₁) = load_tags-returned ids w t tags run in
      let (entries, t₂, run, h) = after-returned (load_favorites orm ids viewer_id t) _ h in
      let (counted, s₂) = load_favorites-returned ids viewer_id t t₂ entries run in
      let (following, t₃, run, h) =
        after-returned (load_following_authors orm viewer_id authors t₂) _ h in
      let (followed, s₃) = load_following_authors-returned viewer_id authors t₂ t₃ following run in
      let (shows, ends) = pure-returned (hydrated tags entries following page) r t₃ w' h in
      let counted' = ap (λ d. favorites_of (favorites_rows ids viewer_id d)) (sym s₁) ∙ counted in
      let followed' = followed ∙ ap (following_of viewer_id authors) (s₂ ∙ s₁) in
      (
        shows
            ∙ ap (λ x. hydrated x entries following page) tagged
            ∙ ap (λ x. hydrated (group_names [] (tag_rows ids w.db)) entries x page) followed'
            ∙ hydrated-own ids authors viewer_id w.db entries counted' page
                (all_listed (λ (x : Article × User). Article.id x.0) page)
                (all_listed_once (λ (x : Article × User). User.id x.1) page),
        ap World.db ends ∙ s₃ ∙ s₂ ∙ s₁,
      )
