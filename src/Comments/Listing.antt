-- ===== src/Comments/Listing.antt =====
-- What CommentService.list returns.
use nest_js_tutorial.Base.{
  ◌≡◌, refl, subst, true, ◌||◌, ◌==◌, ==_refl, map, sym, ap, ◌∙◌, Bool, false, Option, none, some,
  Text, List, [], ◌∷◌,
}
use nest_js_tutorial.Runtime.{returned}
use nest_js_tutorial.Runtime.Inversion.{after-returned, recover-returned}
use nest_js_tutorial.Database.{Db, User, Article, Comment, Orm, World}
use nest_js_tutorial.Database.Statements.{article_by_slug, query-returned}
use nest_js_tutorial.Database.Transactions.{transaction-returned}
use nest_js_tutorial.Database.Steps.{require-step, query-step}
use nest_js_tutorial.Serializers.{SerializedComment, serialize_comment}
use nest_js_tutorial.Articles.Tags.{contains}
use nest_js_tutorial.Comments.Following.{IsFollowedIn, followed_iff, contains-author_ids}
use nest_js_tutorial.Comments.{
  rethrow_comment_error, comments_of, author_ids, load_followed_authors, serialize_comments,
  list_in_transaction, show_comments, list,
}

-- Whom the viewer follows: an anonymous viewer nobody.
abbrev pub Follows : Option Text → Db → Text → Type 0
Follows none d author_id = ⊥
Follows (some []) d author_id = ⊥
Follows (some (c ∷ cs)) d author_id = IsFollowedIn d.users d.user_follows (c ∷ cs) author_id

-- What is shown of a comment and its author.
abbrev shown_as : Comment → User → Bool → SerializedComment
shown_as c u following = record {
  id = c.id;
  created_at = c.created_at;
  updated_at = c.updated_at;
  body = c.body;
  author = record { username = u.username; bio = u.bio; image = u.image; following = following };
}

abbrev pub IsShown : Option Text → Db → List (Comment × User) → List SerializedComment → Type 0
IsShown viewer d [] [] = Unit
IsShown viewer d ((c, u) ∷ cs) (s ∷ ss) =
    ((following : Bool) × (s ≡ shown_as c u following)
      × (following ≡ true → Follows viewer d u.id)
      × (Follows viewer d u.id → following ≡ true))
    × IsShown viewer d cs ss
IsShown viewer d [] (s ∷ ss) = ⊥
IsShown viewer d (c ∷ cs) [] = ⊥

abbrev pub IsListed : Text → Option Text → Db → Db → List SerializedComment → Type 0
IsListed slug viewer d d' r =
    (article : Article) × (article_by_slug slug d ≡ some article)
    × IsShown viewer d (comments_of article.id d) r
    × (d' ≡ d)

serialized-IsShown :
    (viewer : Option Text) (d : Db) (has : Text → Bool) (cs : List (Comment × User))
    → ((x : Text)
        → contains (map (λ y. User.id (y.1)) cs) x ≡ true
        → (has x ≡ true → Follows viewer d x) × (Follows viewer d x → has x ≡ true))
    → IsShown viewer d cs (serialize_comments has cs)
unfolding serialize_comments serialize_comment
serialized-IsShown viewer d has [] h = tt
serialized-IsShown viewer d has ((c, u) ∷ cs) h =
    let here = h u.id (rw (==_refl u.id) refl) in
    (
      (has u.id, refl, here.0, here.1),
      serialized-IsShown viewer d has cs (λ x k. h x (rw k (or_true (u.id == x)))),
    )
  where
    or_true : (b : Bool) → (b || true) ≡ true
    or_true true = refl
    or_true false = refl

anonymous-IsShown :
    (viewer : Option Text) (d : Db) (cs : List (Comment × User))
    → ((x : Text) → Follows viewer d x → ⊥)
    → IsShown viewer d cs (serialize_comments (λ id. false) cs)
anonymous-IsShown viewer d cs nobody =
    serialized-IsShown viewer d (λ id. false) cs
      (λ x k. ((λ bad. cc), (λ follows. absurd (nobody x follows))))

module _ (orm : Orm) where
  show_comments-returned :
      (viewer : Option Text) (cs : List (Comment × User)) (w w' : World orm.Env)
      (r : List SerializedComment)
      → show_comments orm viewer cs w ≡ (returned r, w')
      → IsShown viewer w.db cs r × (w'.db ≡ w.db)
  unfolding show_comments serialize_comments
  show_comments-returned none cs w w' r h =
      let ends : w' ≡ w = cc in
      let shows : serialize_comments (λ id. false) cs ≡ r = cc in
      (
        subst (IsShown none w.db cs) shows (anonymous-IsShown none w.db cs (λ x f. f)),
        ap World.db ends,
      )
  show_comments-returned (some []) cs w w' r h =
      let ends : w' ≡ w = cc in
      let shows : serialize_comments (λ id. false) cs ≡ r = cc in
      (
        subst (IsShown (some []) w.db cs) shows (anonymous-IsShown (some []) w.db cs (λ x f. f)),
        ap World.db ends,
      )
  show_comments-returned (some (c ∷ s)) [] w w' r h =
      let ends : w' ≡ w = cc in
      let shows : [] ≡ r = cc in (subst (IsShown (some (c ∷ s)) w.db []) shows tt, ap World.db ends)
  show_comments-returned (some (c ∷ s)) (x ∷ xs) w w' r h =
      let ids = author_ids (x ∷ xs) in
      let (t, same, h) = query-step orm _ w (load_followed_authors (c ∷ s) ids) h in
      let ends : w' ≡ t = cc in
      let followed = load_followed_authors (c ∷ s) ids w.db in
      let shows : serialize_comments (contains followed) (x ∷ xs) ≡ r = cc in
      (
        subst (IsShown (some (c ∷ s)) w.db (x ∷ xs)) shows (
            serialized-IsShown (some (c ∷ s)) w.db (contains followed) (x ∷ xs)
              (λ id k. followed_iff (c ∷ s) id ids w.db (contains-author_ids (x ∷ xs) id ∙ k))),
        ap World.db ends ∙ same,
      )

  list_in_transaction-returned :
      (slug : Text) (w w' : World orm.Env) (cs : List (Comment × User))
      → list_in_transaction orm slug w ≡ (returned cs, w')
      → (article : Article) × (article_by_slug slug w.db ≡ some article)
        × (cs ≡ comments_of article.id w.db)
        × (w'.db ≡ w.db)
  unfolding list_in_transaction
  list_in_transaction-returned slug w w' cs h =
      let (article, t, found, same, h) = require-step orm _ w (article_by_slug slug) _ h in
      let (read, same') = query-returned orm (comments_of article.id) t h in
      (article, found, sym read ∙ ap (comments_of article.id) same, same' ∙ same)

  -- Whatever the driver does, if `list` returns then the article is there, the response shows the
  -- comments that `comments_of` finds for it, each with its author and with whether a stored follow
  -- joins the viewer, by that username, to the author; an anonymous viewer follows nobody; and no row
  -- has changed.
  pub list_returned :
      (slug : Text) (viewer : Option Text) (w w' : World orm.Env) (r : List SerializedComment)
      → list orm slug viewer w ≡ (returned r, w')
      → IsListed slug viewer w.db w'.db r
  unfolding list
  list_returned slug viewer w w' r h =
      let run = recover-returned _ rethrow_comment_error h in
      let (cs, t, read, shown) =
        after-returned (orm.transaction (list_in_transaction orm slug) w) (show_comments orm viewer)
          run in
      let (v, v', inner, start, end) =
        transaction-returned orm (list_in_transaction orm slug) w read in
      let (article, found, rows, same) = list_in_transaction-returned slug v v' cs inner in
      let (r_eq, same') = show_comments-returned viewer cs t w' r shown in
      let t_eq = sym end ∙ same ∙ start in
      (
        article,
        ap (article_by_slug slug) (sym start) ∙ found,
        subst (λ d. IsShown viewer d (comments_of article.id w.db) r) t_eq
            (subst (λ cs. IsShown viewer t.db cs r) (rows ∙ ap (comments_of article.id) start)
              r_eq),
        same' ∙ t_eq,
      )
