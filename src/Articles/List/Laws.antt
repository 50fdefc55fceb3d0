-- ===== src/Articles/List/Laws.antt =====
-- What ArticleListQueryService.list returns.
use nest_js_tutorial.Base.{
  ℕ, ◌-◌, ◌≡◌, refl, sym, ap, ◌∙◌, subst, true, Option, none, some, length, all, List, take, drop,
}
use nest_js_tutorial.Runtime.{Exception, returned}
use nest_js_tutorial.Runtime.Inversion.{recover-returned, pure-returned}
use nest_js_tutorial.Database.{Db, User, Article, Orm, World}
use nest_js_tutorial.Database.Steps.{query-step}
use nest_js_tutorial.Articles.List.{
  ArticleListQueryCriteria, ArticleListQueryResult, validate_criteria, matches, matching_rows,
  page_of, load_page, list_valid, list,
}
use nest_js_tutorial.Articles.List.Page.{
  smaller, is_newest_first, IsOrdered, page_of_lem, size_of_page,
}

-- The page of these criteria, from the offset on and of the limit that they give: a slice of all the
-- articles in their order.
pub record IsPage (criteria : ArticleListQueryCriteria) (offset limit : ℕ) (d : Db)
    (r : ArticleListQueryResult) : Type 0 where
  pub total : r.articles_count ≡ length (matching_rows criteria d)
  pub size : length r.articles ≡ smaller limit (r.articles_count - offset)
  pub sound : all (matches criteria d) r.articles ≡ true
  pub ordered : is_newest_first r.articles ≡ true
  pub slice :
      (rows : List (Article × User)) × IsOrdered criteria d rows
      × (r.articles ≡ take limit (drop offset rows))

abbrev pub IsListed : ArticleListQueryCriteria → Db → Db → ArticleListQueryResult → Type 0
IsListed criteria d d' r =
    (offset : ℕ) × (limit : ℕ) × (validate_criteria criteria ≡ some (offset, limit))
    × IsPage criteria offset limit d r
    × (d' ≡ d)

page_lem :
    (criteria : ArticleListQueryCriteria) (offset limit : ℕ) (d : Db)
    → IsPage criteria offset limit d (record {
      articles = page_of criteria offset limit d;
      articles_count = length (matching_rows criteria d);
    })
page_lem criteria offset limit d =
    let (size, sound, ordered) = size_of_page criteria offset limit d in
    record {
      total = refl;
      size = size;
      sound = sound;
      ordered = ordered;
      slice = page_of_lem criteria offset limit d;
    }

module _ (orm : Orm) where
  load_page-returned :
      (criteria : ArticleListQueryCriteria) (offset limit : ℕ) (w w' : World orm.Env)
      (r : ArticleListQueryResult)
      → load_page orm criteria offset limit w ≡ (returned r, w')
      → IsPage criteria offset limit w.db r × (w'.db ≡ w.db)
  unfolding load_page
  load_page-returned criteria offset limit w w' r h =
      let (t, same, h) = query-step orm _ w (λ d. length (matching_rows criteria d)) h in
      let (t₂, same', h) = query-step orm _ t (page_of criteria offset limit) h in
      let result : ArticleListQueryResult = record {
        articles = page_of criteria offset limit t.db;
        articles_count = length (matching_rows criteria w.db);
      } in
      let (shows, ends) = pure-returned result r t₂ w' h in
      let page : Db → ArticleListQueryResult = λ d. record {
        articles = page_of criteria offset limit d;
        articles_count = length (matching_rows criteria w.db);
      } in
      (
        subst (IsPage criteria offset limit w.db) (sym (shows ∙ ap page same))
            (page_lem criteria offset limit w.db),
        ap World.db ends ∙ same' ∙ same,
      )

  valid-returned :
      (criteria : ArticleListQueryCriteria) (o : Option (ℕ × ℕ)) (w w' : World orm.Env)
      (r : ArticleListQueryResult)
      → validate_criteria criteria ≡ o
      → list_valid orm criteria o w ≡ (returned r, w')
      → IsListed criteria w.db w'.db r
  valid-returned criteria none w w' r v h = cc
  valid-returned criteria (some (offset, limit)) w w' r v h =
      let run = recover-returned _ (λ e. Exception.article_list_query_persistence) h in
      let (page, same) = load_page-returned criteria offset limit w w' r run in
      (offset, limit, v, page, same)

  -- Whatever the driver does, if a list returns then its criteria are valid, the count is that of all
  -- articles that pass the filters, the page has the size that is asked for, as far as there are
  -- articles, all of them pass the filters, and they are in order; the page is the slice from the
  -- offset on of all the articles, newest first, that pass the filters, each with its author and as
  -- often as it is stored; and no row has changed.
  pub list_query_returned :
      (criteria : ArticleListQueryCriteria) (w w' : World orm.Env) (r : ArticleListQueryResult)
      → list orm criteria w ≡ (returned r, w')
      → IsListed criteria w.db w'.db r
  unfolding list
  list_query_returned criteria w w' r h =
      valid-returned criteria (validate_criteria criteria) w w' r refl h
