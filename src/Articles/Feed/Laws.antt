-- ===== src/Articles/Feed/Laws.antt =====
-- What the list and the feed return, and the errors that they end in.
use nest_js_tutorial.Base.{
  ℕ, ◌≡◌, refl, ap, ◌∙◌, subst, true, Option, none, some, Text, List, [], ◌∷◌, all, arith,
}
use nest_js_tutorial.Runtime.{returned, ◌>>=◌}
use nest_js_tutorial.Runtime.Inversion.{after-returned, pure-returned, recover-returned}
use nest_js_tutorial.Database.{Db, User, Article, Orm, World}
use nest_js_tutorial.Database.Statements.{user_by_username}
use nest_js_tutorial.Database.Steps.{require-step}
use nest_js_tutorial.Serializers.{ArticleList, serialize_article_list}
use nest_js_tutorial.Articles.Read.{has_follow}
use nest_js_tutorial.Articles.List
use nest_js_tutorial.Articles.List.{ArticleListQueryCriteria, ArticleListQueryResult, matches}
use nest_js_tutorial.Articles.List.Laws.{IsListed, IsPage, list_query_returned}
use nest_js_tutorial.Articles.Hydrator.{hydrate}
use nest_js_tutorial.Articles.Hydrator.Laws.{own_contexts, hydrate_returned}
use nest_js_tutorial.Articles.Feed.{
  user_id, with_followed, list_error, find_list_viewer, hydrate_result, load_body, load, list, feed,
}

-- The viewer of a list: nobody, or the user of the given name.
abbrev pub IsListViewer : Option Text → Option User → Db → Type 0
IsListViewer none viewer d = viewer ≡ none
IsListViewer (some name) viewer d =
    (u : User) × (viewer ≡ some u) × (user_by_username name d ≡ some u)

-- The page of these criteria as this viewer sees it.
abbrev pub shown : ArticleListQueryResult → Option User → Db → ArticleList
shown result viewer d =
    serialize_article_list (own_contexts (user_id viewer) d result.articles) result.articles_count

-- The criteria of the feed of a user.
abbrev pub followed_by : User → ArticleListQueryCriteria → ArticleListQueryCriteria
followed_by viewer criteria = record criteria { followed_by_user_id = some viewer.id }

-- Everyone whom the feed shows is followed by its viewer.
matches-followed :
    (viewer : User) (criteria : ArticleListQueryCriteria) (d : Db) (rows : List (Article × User))
    → all (matches (followed_by viewer criteria) d) rows ≡ true
    → all (λ row. has_follow viewer.id (Article.author_id row.0) d) rows ≡ true
unfolding matches
matches-followed viewer criteria d [] h = refl
matches-followed viewer criteria d (row ∷ rows) h =
    ground (arith, matches-followed viewer criteria d rows)

module _ (orm : Orm) where
  find_list_viewer-returned :
      (name : Option Text) (w w' : World orm.Env) (viewer : Option User)
      → find_list_viewer orm name w ≡ (returned viewer, w')
      → (w'.db ≡ w.db) × IsListViewer name viewer w.db
  unfolding find_list_viewer
  find_list_viewer-returned none w w' viewer h =
      let (shows, ends) = pure-returned none viewer w w' h in (ap World.db ends, shows)
  find_list_viewer-returned (some name) w w' viewer h =
      let (u, t, found, same, h) = require-step orm _ w (user_by_username name) _ h in
      let (shows, ends) = pure-returned (some u) viewer t w' h in
      (ap World.db ends ∙ same, (u, shows, found))

  hydrate_result-returned :
      (viewer_id : Option Text) (rows : List (Article × User)) (n : ℕ) (w w' : World orm.Env)
      (r : ArticleList)
      → hydrate_result orm viewer_id rows n w ≡ (returned r, w')
      → (r ≡ serialize_article_list (own_contexts viewer_id w.db rows) n) × (w'.db ≡ w.db)
  unfolding hydrate_result
  hydrate_result-returned viewer_id [] n w w' r h =
      let (shows, ends) = pure-returned (serialize_article_list [] n) r w w' h in
      (shows, ap World.db ends)
  hydrate_result-returned viewer_id (row ∷ rows) n w w' r h =
      let (articles, t, run, h) = after-returned (hydrate orm (row ∷ rows) viewer_id w) _ h in
      let (own, same) = hydrate_returned orm (row ∷ rows) viewer_id w t articles run in
      let (shows, ends) = pure-returned (serialize_article_list articles n) r t w' h in
      (shows ∙ ap (λ a. serialize_article_list a n) own, ap World.db ends ∙ same)

  -- What a query of these criteria answers.
  answered :
      (criteria : ArticleListQueryCriteria) (viewer : Option User) (w w' : World orm.Env)
      (r : ArticleList)
      → (List.list orm criteria >>= λ result.
            hydrate_result orm (user_id viewer) result.articles result.articles_count)
          w
        ≡ (returned r, w')
      → (result : ArticleListQueryResult) × IsListed criteria w.db w.db result
        × (r ≡ shown result viewer w.db)
        × (w'.db ≡ w.db)
  answered criteria viewer w w' r h =
      let (result, t, run, h) = after-returned (List.list orm criteria w) _ h in
      let listed = list_query_returned orm criteria w t result run in
      let (offset, limit, valid, page, same) = listed in
      let (shows, same') =
        hydrate_result-returned (user_id viewer) result.articles result.articles_count t w' r h in
      (
        result,
        (offset, limit, valid, page, refl),
        shows
            ∙ ap
                (λ d.
                  serialize_article_list (own_contexts (user_id viewer) d result.articles)
                    result.articles_count)
                same,
        same' ∙ same,
      )

  -- Whatever the driver does, if the list of articles returns then no row has changed, the viewer is
  -- there, if there is one, and the response shows the page of the criteria with each article's tags,
  -- favourites and follow as this viewer sees them.
  pub list_returned :
      (criteria : ArticleListQueryCriteria) (name : Option Text) (w w' : World orm.Env)
      (r : ArticleList)
      → list orm criteria name w ≡ (returned r, w')
      → (viewer : Option User) × IsListViewer name viewer w.db
        × (result : ArticleListQueryResult) × IsListed criteria w.db w.db result
        × (r ≡ shown result viewer w.db)
        × (w'.db ≡ w.db)
  unfolding list load load_body
  list_returned criteria name w w' r h =
      let h = recover-returned _ list_error h in
      let (viewer, t, run, h) = after-returned (find_list_viewer orm name w) _ h in
      let (same, is_viewer) = find_list_viewer-returned name w t viewer run in
      let (result, listed, shows, same') = answered criteria viewer t w' r h in
      (
        viewer,
        is_viewer,
        result,
        subst (λ d. IsListed criteria d d result) same listed,
        shows ∙ ap (shown result viewer) same,
        same' ∙ same,
      )

  -- Whatever the driver does, if the feed returns then no row has changed, its viewer is there, the
  -- response shows the page of the criteria as this viewer sees it, and the viewer follows the author
  -- of every article on it.
  pub feed_returned :
      (criteria : ArticleListQueryCriteria) (name : Text) (w w' : World orm.Env) (r : ArticleList)
      → feed orm criteria name w ≡ (returned r, w')
      → (viewer : User) × (user_by_username name w.db ≡ some viewer)
        × (result : ArticleListQueryResult) × IsListed
            (followed_by viewer criteria)
            w.db
            w.db
            result
        × (all (λ row. has_follow viewer.id (Article.author_id row.0) w.db) result.articles ≡ true)
        × (r ≡ shown result (some viewer) w.db)
        × (w'.db ≡ w.db)
  unfolding feed load load_body find_list_viewer
  feed_returned criteria name w w' r h =
      let h = recover-returned _ list_error h in
      let (found_viewer, t, run, h) = after-returned (find_list_viewer orm (some name) w) _ h in
      let (same, (viewer, is_it, found)) =
        find_list_viewer-returned (some name) w t found_viewer run in
      let (c, t₂, run, h) = after-returned (with_followed criteria found_viewer true t) _ h in
      let (c_eq, t_eq) =
        pure-returned (followed_by viewer criteria) c t t₂
          (subst (λ v. with_followed criteria v true t ≡ (returned c, t₂)) is_it run) in
      let (result, (offset, limit, valid, page, done), shows, same') =
        answered c found_viewer t₂ w' r h in
      let same₂ : t₂.db ≡ w.db = ap World.db t_eq ∙ same in
      let listed : IsListed (followed_by viewer criteria) w.db w.db result =
        subst (λ d. IsListed (followed_by viewer criteria) d d result) same₂
          (subst (λ k. IsListed k t₂.db t₂.db result) c_eq (offset, limit, valid, page, refl)) in
      (
        viewer,
        found,
        result,
        listed,
        matches-followed viewer criteria w.db result.articles (IsPage.sound listed.3),
        shows ∙ ap (λ v. shown result v t₂.db) is_it ∙ ap (shown result (some viewer)) same₂,
        same' ∙ same₂,
      )
