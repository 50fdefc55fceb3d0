-- ===== src/Articles/Read/Laws.antt =====
-- What ArticleReadService.getBySlug returns.
use nest_js_tutorial.Base.{
  ◌≡◌, sym, ap, ◌∙◌, subst, Bool, Option, none, some, Text, [], ◌∷◌, List, ℕ,
}
use nest_js_tutorial.Runtime.{Exception, returned}
use nest_js_tutorial.Runtime.Inversion.{after-returned}
use nest_js_tutorial.Database.{Db, User, Article, Orm, World}
use nest_js_tutorial.Database.Statements.{user_by_username, query-returned}
use nest_js_tutorial.Database.Steps.{require-step, query-step}
use nest_js_tutorial.Serializers.{
  ArticleDetail, ArticleSerializationContext, serialize_article_detail,
}
use nest_js_tutorial.Articles.Tags.{ordered_tag_names}
use nest_js_tutorial.Articles.Read.{
  article_and_author, favorites_count, has_favorite, has_follow, for_viewer, find_viewer,
  find_for_viewer, load_context, get_by_slug,
}

-- The viewer of a request: nobody, or the user of the given name.
abbrev pub IsViewer : Option Text → Option User → Db → Type 0
IsViewer none viewer d = viewer ≡ none
IsViewer (some []) viewer d = viewer ≡ none
IsViewer (some (c ∷ cs)) viewer d =
    (u : User) × (viewer ≡ some u) × (user_by_username (c ∷ cs) d ≡ some u)

-- The article as this viewer sees it.
abbrev pub context_for : Article → Option User → Db → ArticleSerializationContext
context_for article viewer d = record {
  tags = ordered_tag_names article.id d;
  favorited = for_viewer viewer (λ u. has_favorite article.id (User.id u)) d;
  favorites_count = favorites_count article.id d;
  author_following = for_viewer viewer (λ u. has_follow (User.id u) article.author_id) d;
}

abbrev pub detail_for : Article × User → Option User → Db → ArticleDetail
detail_for article viewer d =
    serialize_article_detail article.0 article.1 (context_for article.0 viewer d)

-- The response shows the article to the viewer, and no row has changed.
abbrev pub IsShown : Text → Option Text → Db → Db → ArticleDetail → Type 0
IsShown slug name d d' r =
    (article : Article × User) × (viewer : Option User) × (article_and_author slug d ≡ some article)
    × IsViewer name viewer d
    × (r ≡ detail_for article viewer d)
    × (d' ≡ d)

context_path :
    {tags : List Text} {f f' g g' : Bool} {n n' : ℕ}
    → n ≡ n'
    → f ≡ f'
    → g ≡ g'
    → ◌≡◌ {A = ArticleSerializationContext}
        (record { tags = tags; favorited = f; favorites_count = n; author_following = g })
        (record { tags = tags; favorited = f'; favorites_count = n'; author_following = g' })
context_path {tags} p q r i = record {
  tags = tags;
  favorited = q i;
  favorites_count = p i;
  author_following = r i;
}

module _ (orm : Orm) where
  find_viewer-returned :
      (name : Option Text) (e : Exception) (w w' : World orm.Env) (viewer : Option User)
      → find_viewer orm name e w ≡ (returned viewer, w')
      → (w'.db ≡ w.db) × IsViewer name viewer w.db
  unfolding find_viewer
  find_viewer-returned none e w w' viewer h = (cc, cc)
  find_viewer-returned (some []) e w w' viewer h = (cc, cc)
  find_viewer-returned (some (c ∷ cs)) e w w' viewer h =
      let (u, t, found, same, done) = require-step orm _ w (user_by_username (c ∷ cs)) e h in
      let same_world : t ≡ w' = cc in (ap World.db (sym same_world) ∙ same, (u, cc, found))

  find_for_viewer-returned :
      (viewer : Option User) (f : User → Db → Bool) (w w' : World orm.Env) (b : Bool)
      → find_for_viewer orm viewer f w ≡ (returned b, w')
      → (for_viewer viewer f w.db ≡ b) × (w'.db ≡ w.db)
  unfolding find_for_viewer
  find_for_viewer-returned none f w w' b h = (cc, cc)
  find_for_viewer-returned (some u) f w w' b h = query-returned orm (f u) w h

  load_context-returned :
      (article : Article) (viewer : Option User) (w w' : World orm.Env)
      (c : ArticleSerializationContext)
      → load_context orm article viewer w ≡ (returned c, w')
      → (c ≡ context_for article viewer w.db) × (w'.db ≡ w.db)
  unfolding load_context
  load_context-returned article viewer w w' c h =
      let (t₃, s₃, h) = query-step orm _ w (ordered_tag_names article.id) h in
      let (t₄, s₄, h) = query-step orm _ t₃ (favorites_count article.id) h in
      let favored = λ (u : User). has_favorite article.id (User.id u) in
      let follows = λ (u : User). has_follow (User.id u) article.author_id in
      let (favorited, t₅, run, h) = after-returned (find_for_viewer orm viewer favored t₄) _ h in
      let (f₅, s₅) = find_for_viewer-returned viewer favored t₄ t₅ favorited run in
      let (following, t₆, run, h) = after-returned (find_for_viewer orm viewer follows t₅) _ h in
      let (f₆, s₆) = find_for_viewer-returned viewer follows t₅ t₆ following run in
      let same₄ = s₄ ∙ s₃ in
      let same₅ = s₅ ∙ same₄ in
      let same_world : t₆ ≡ w' = cc in
      let made : ◌≡◌ {A = ArticleSerializationContext}
          (record {
            tags = ordered_tag_names article.id w.db;
            favorited = favorited;
            favorites_count = favorites_count article.id t₃.db;
            author_following = following;
          })
          c =
        cc in
      (
        sym made
            ∙ context_path (ap (favorites_count article.id) s₃)
                (sym f₅ ∙ ap (for_viewer viewer favored) same₄)
                (sym f₆ ∙ ap (for_viewer viewer follows) same₅),
        ap World.db (sym same_world) ∙ s₆ ∙ same₅,
      )

  -- Whatever the driver does, if getBySlug returns then no row has changed, the article and its author
  -- are there, and the body shows the stored fields, the ordered tags, the number of favourites and
  -- what this viewer has favourited and follows.
  pub get_by_slug_returned :
      (slug : Text) (name : Option Text) (w w' : World orm.Env) (r : ArticleDetail)
      → get_by_slug orm slug name w ≡ (returned r, w')
      → IsShown slug name w.db w'.db r
  unfolding get_by_slug
  get_by_slug_returned slug name w w' r h =
      let (article, t, found, s₁, h) = require-step orm _ w (article_and_author slug) _ h in
      let (viewer, t₂, run, h) = after-returned (find_viewer orm name _ t) _ h in
      let (s₂, is_viewer) = find_viewer-returned name _ t t₂ viewer run in
      let (context, t₃, run, h) = after-returned (load_context orm article.0 viewer t₂) _ h in
      let (c, s₃) = load_context-returned article.0 viewer t₂ t₃ context run in
      let same_world : t₃ ≡ w' = cc in
      let result : serialize_article_detail article.0 article.1 context ≡ r = cc in
      (
        article,
        viewer,
        found,
        subst (IsViewer name viewer) s₁ is_viewer,
        sym result
            ∙ ap (serialize_article_detail article.0 article.1)
                (c ∙ ap (context_for article.0 viewer) (s₂ ∙ s₁)),
        ap World.db (sym same_world) ∙ s₃ ∙ s₂ ∙ s₁,
      )
