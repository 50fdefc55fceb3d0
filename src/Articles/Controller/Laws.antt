-- ===== src/Articles/Controller/Laws.antt =====
-- The answers of the routes to every failure, through the service, the controller and the filter.
use nest_js_tutorial.Base.{
  ℕ, ◌≡◌, refl, sym, ap, ◌∙◌, subst, ◌⊎◌, inl, inr, true, false, Option, some, Text, codes, List,
  [], ◌∷◌, ◌==◌,
}
use nest_js_tutorial.Runtime.{Exception, thrown, M, throw, try_catch}
use nest_js_tutorial.Serializers.{ArticleList}
use nest_js_tutorial.Runtime.Inversion.{recover-thrown}
use nest_js_tutorial.Database.{Orm, World}
use nest_js_tutorial.Articles.Slug.{Unicode}
use nest_js_tutorial.Articles.Create
use nest_js_tutorial.Articles.Create.{NewArticleDto, Generated}
use nest_js_tutorial.Articles.Create.Laws.{is_create_error, create_atomic}
use nest_js_tutorial.Articles.Update.{ArticleUpdateDto, is_expected_update_error}
use nest_js_tutorial.Articles.Update.Laws.{update_atomic}
use nest_js_tutorial.Articles.Delete
use nest_js_tutorial.Articles.Delete.{is_expected_delete_error}
use nest_js_tutorial.Articles.Delete.Laws.{delete_atomic}
use nest_js_tutorial.Articles.Feed
use nest_js_tutorial.Articles.Feed.{load_body, load, list_error}
use nest_js_tutorial.Articles.Requests.{ArticlePagination}
use nest_js_tutorial.Articles.Controller.{
  ArticleListQuery, list_criteria, feed_criteria, handle_article_list_error, create_route_error,
  delete_route_error, list_route, feed_route, create_route, update_route, delete_route,
}
use nest_js_tutorial.Common.Filter.{
  FormattedApiException, format_api_exception, get_existing_errors, get_field,
}

-- A response with one message on one name.
abbrev pub answer : ℕ → Text → Text → FormattedApiException
answer status name message = record { body = (name, message ∷ []) ∷ []; status_code = status }

abbrev pub IsOneOf : FormattedApiException → List FormattedApiException → Type 0
IsOneOf r [] = ⊥
IsOneOf r (a ∷ as_well) = (r ≡ a) ⊎ IsOneOf r as_well

abbrev pub unauthorized : FormattedApiException
unauthorized = answer 401 (codes "token") (codes "is invalid")

abbrev pub failed : FormattedApiException
failed = answer 500 (codes "body") (codes "request failed")

abbrev pub not_found : FormattedApiException
not_found = answer 404 (codes "article") (codes "not found")

abbrev pub forbidden : FormattedApiException
forbidden = answer 403 (codes "article") (codes "forbidden")

abbrev pub list_answers : List FormattedApiException
list_answers = unauthorized ∷ answer 422 (codes "query") (codes "is invalid") ∷ failed ∷ []

abbrev pub create_answers : List FormattedApiException
create_answers =
    unauthorized ∷ answer 409 (codes "slug") (codes "has already been taken") ∷ failed ∷ []

abbrev pub owner_answers : List FormattedApiException
owner_answers = unauthorized ∷ not_found ∷ forbidden ∷ failed ∷ []

create_answered :
    (e : Exception)
    → is_create_error e ≡ true
    → IsOneOf (format_api_exception (create_route_error e)) create_answers
unfolding create_route_error format_api_exception get_existing_errors get_field ◌==◌
create_answered Exception.article_author_not_found h = inl refl
create_answered Exception.article_slug_conflict h = inr (inl refl)
create_answered Exception.article_create_persistence h = inr (inr (inl refl))
create_answered e h = cc

delete_answered :
    (e : Exception)
    → is_expected_delete_error e ≡ true
    → IsOneOf (format_api_exception (delete_route_error e)) owner_answers
unfolding delete_route_error is_expected_delete_error format_api_exception get_existing_errors
    get_field ◌==◌
delete_answered Exception.article_delete_user_not_found h = inl refl
delete_answered Exception.article_delete_article_not_found h = inr (inl refl)
delete_answered Exception.article_delete_forbidden h = inr (inr (inl refl))
delete_answered Exception.article_delete_persistence h = inr (inr (inr (inl refl)))
delete_answered e h = cc

update_answered :
    (e : Exception)
    → is_expected_update_error e ≡ true
    → IsOneOf (format_api_exception e) owner_answers
unfolding is_expected_update_error format_api_exception get_existing_errors get_field ◌==◌
update_answered Exception.article_update_user_not_found h = inl refl
update_answered Exception.article_update_article_not_found h = inr (inl refl)
update_answered Exception.article_update_forbidden h = inr (inr (inl refl))
update_answered Exception.article_update_persistence h = inr (inr (inr (inl refl)))
update_answered e h = cc

list_answered :
    (e : Exception)
    → IsOneOf (format_api_exception (handle_article_list_error (list_error e))) list_answers
unfolding handle_article_list_error format_api_exception get_existing_errors get_field ◌==◌
list_answered Exception.article_list_viewer_not_found = inl refl
list_answered Exception.article_list_query_validation = inr (inl refl)
list_answered e = inr (inr (inl refl))

module _ (orm : Orm) where
  -- Whatever the driver does, a creation that fails has changed no row, and its answer is one of three:
  -- the token is invalid, the slug has been taken, or the request has failed.
  pub create_route_answers :
      (unicode : Unicode) (new : Generated) (article : NewArticleDto) (subject : Text)
      (w w' : World orm.Env) (e : Exception)
      → create_route orm unicode new article subject w ≡ (thrown e, w')
      → (w'.db ≡ w.db) × IsOneOf (format_api_exception e) create_answers
  unfolding create_route
  create_route_answers unicode new article subject w w' e h =
      let (e', t, run, h) = recover-thrown (Create.create orm unicode new subject article w) _ h in
      let (same, declared) = create_atomic orm unicode new subject article w t e' run in
      let e_eq : create_route_error e' ≡ e = cc in
      let ends : t ≡ w' = cc in
      (
        ap World.db (sym ends) ∙ same,
        subst (λ x. IsOneOf (format_api_exception x) create_answers) e_eq
            (create_answered e' declared),
      )

  -- Whatever the driver does, a deletion that fails has changed no row, and its answer is one of four:
  -- the token is invalid, the article is not there or belongs to another author, or the request has
  -- failed.
  pub delete_route_answers :
      (slug subject : Text) (w w' : World orm.Env) (e : Exception)
      → delete_route orm slug subject w ≡ (thrown e, w')
      → (w'.db ≡ w.db) × IsOneOf (format_api_exception e) owner_answers
  unfolding delete_route
  delete_route_answers slug subject w w' e h =
      let (e', t, run, h) = recover-thrown (Delete.delete orm slug subject w) _ h in
      let (same, declared) = delete_atomic orm slug subject w t e' run in
      let e_eq : delete_route_error e' ≡ e = cc in
      let ends : t ≡ w' = cc in
      (
        ap World.db (sym ends) ∙ same,
        subst (λ x. IsOneOf (format_api_exception x) owner_answers) e_eq
            (delete_answered e' declared),
      )

  -- Whatever the driver does, an update that fails has changed no row, and its answer is one of the
  -- same four.
  pub update_route_answers :
      (now : ℕ) (new_id : Text → Text) (slug : Text) (article : ArticleUpdateDto) (subject : Text)
      (w w' : World orm.Env) (e : Exception)
      → update_route orm now new_id slug article subject w ≡ (thrown e, w')
      → (w'.db ≡ w.db) × IsOneOf (format_api_exception e) owner_answers
  unfolding update_route
  update_route_answers now new_id slug article subject w w' e h =
      let (same, declared) = update_atomic orm now new_id slug subject article w w' e h in
      (same, update_answered e declared)

  load_answers :
      (m : M (World orm.Env) ArticleList) (w w' : World orm.Env) (e : Exception)
      → try_catch
          (try_catch m (λ x. throw (list_error x)))
          (λ x. throw (handle_article_list_error x))
          w
        ≡ (thrown e, w')
      → IsOneOf (format_api_exception e) list_answers
  load_answers m w w' e h =
      let (e', t, run, h) = recover-thrown _ _ h in
      let (e'', t', run, h') = recover-thrown (m w) _ run in
      let e_eq : handle_article_list_error (list_error e'') ≡ e = cc in
      subst (λ x. IsOneOf (format_api_exception x) list_answers) e_eq (list_answered e'')

  -- Whatever the driver does, a list that fails answers in one of three ways: the token is invalid, the
  -- query is invalid, or the request has failed.
  pub list_route_answers :
      (request : ArticleListQuery) (subject : Option Text) (w w' : World orm.Env) (e : Exception)
      → list_route orm request subject w ≡ (thrown e, w')
      → IsOneOf (format_api_exception e) list_answers
  unfolding list_route Feed.list Feed.load
  list_route_answers request subject w w' e h =
      load_answers (load_body orm (list_criteria request) subject false) w w' e h

  -- The same for the feed.
  pub feed_route_answers :
      (page : ArticlePagination) (subject : Text) (w w' : World orm.Env) (e : Exception)
      → feed_route orm page subject w ≡ (thrown e, w')
      → IsOneOf (format_api_exception e) list_answers
  unfolding feed_route Feed.feed Feed.load
  feed_route_answers page subject w w' e h =
      load_answers (load_body orm (feed_criteria page) (some subject) true) w w' e h
