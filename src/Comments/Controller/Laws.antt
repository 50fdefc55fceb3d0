-- ===== src/Comments/Controller/Laws.antt =====
-- The answers to a deletion of a comment, through the service, the controller and the filter.
use nest_js_tutorial.Base.{
  ◌≡◌, ◌⊎◌, inl, inr, refl, sym, subst, Option, none, some, Text, codes, List, [], ◌∷◌, ◌==◌, ℤ, ℕ,
  Bool-cases,
}
use nest_js_tutorial.Runtime.{Exception, Outcome, returned, thrown}
use nest_js_tutorial.Database.{Db, User, Article, Comment, Orm, World}
use nest_js_tutorial.Database.Reliable.{IsReliable}
use nest_js_tutorial.Database.Statements.{article_by_slug, user_by_username}
use nest_js_tutorial.Comments.{stored_id, comment_by_id}
use nest_js_tutorial.Comments.Laws.{
  HasUniqueCommentIds, decide_author, decide_found, delete_decision, comment_delete_reliable,
}
use nest_js_tutorial.Comments.Controller.{delete_parsed, delete_comment_route}
use nest_js_tutorial.Articles.Controller.Laws.{answer, IsOneOf, unauthorized, not_found}
use nest_js_tutorial.Common.Filter.{
  FormattedApiException, format_api_exception, get_existing_errors, get_field,
}

abbrev pub comment_answers : List FormattedApiException
comment_answers =
    answer 422 (codes "id") (codes "must be an integer")
    ∷ unauthorized
    ∷ not_found
    ∷ answer 404 (codes "comment") (codes "not found")
    ∷ answer 403 (codes "comment") (codes "forbidden")
    ∷ []

-- A deletion has succeeded, or it has changed no row and has one of these answers.
abbrev pub IsAnswered : Db → Outcome (Unit {0}) × Db → Type 0
IsAnswered d o =
    (o.0 ≡ returned tt)
    ⊎ ((e : Exception) × (o.0 ≡ thrown e)
        × (o.1 ≡ d)
        × IsOneOf (format_api_exception e) comment_answers)

author-IsAnswered :
    (a : Article) (u : User) (id : ℕ) (c : Comment) (d : Db)
    → IsAnswered d (decide_author a u id c d)
unfolding format_api_exception get_existing_errors get_field ◌==◌
author-IsAnswered a u id c d = elim (Bool-cases (c.author_id == u.id)) [
  | inl mine ↦ rw mine (inl refl)
  | inr other ↦ rw other (inr (_, refl, refl, inr (inr (inr (inr (inl refl))))))
]

decision-IsAnswered :
    (a : Option Article) (u : Option User) (id : Option ℕ) (d : Db)
    → IsAnswered d (delete_decision a u id d)
unfolding format_api_exception get_existing_errors get_field ◌==◌
decision-IsAnswered none u id d = inr (_, refl, refl, inr (inr (inl refl)))
decision-IsAnswered (some a) none id d = inr (_, refl, refl, inr (inl refl))
decision-IsAnswered (some a) (some u) none d = inr (_, refl, refl, inr (inr (inr (inl refl))))
decision-IsAnswered (some a) (some u) (some id) d = found-IsAnswered (comment_by_id a.id id d)
  where
    found-IsAnswered : (c : Option Comment) → IsAnswered d (decide_found a u id c d)
    found-IsAnswered none = inr (_, refl, refl, inr (inr (inr (inl refl))))
    found-IsAnswered (some c) = author-IsAnswered a u id c d

module _ (orm : Orm) (reliable : IsReliable orm) (w : World orm.Env)
    (unique : HasUniqueCommentIds w.db) where
  parsed-IsAnswered :
      (slug username : Text) (id : Option ℤ)
      → let (r, w') = delete_parsed orm slug username id w in IsAnswered w.db (r, w'.db)
  unfolding format_api_exception get_existing_errors get_field ◌==◌
  parsed-IsAnswered slug username none = inr (_, refl, refl, inl refl)
  parsed-IsAnswered slug username (some id) =
      subst (IsAnswered w.db) (sym (comment_delete_reliable orm reliable slug id username w unique))
        (decision-IsAnswered (article_by_slug slug w.db) (user_by_username username w.db)
          (stored_id id) w.db)

  -- With a driver that does not fail by itself and unique comment ids, a request to delete a comment
  -- succeeds, or it changes no row and has one of five answers: the id must be an integer, the token is
  -- invalid, the article or the comment is not found, or the comment is another user's.
  pub delete_comment_route_answers :
      (parse_int : Text → Option ℤ) (id slug username : Text)
      → let (r, w') = delete_comment_route orm parse_int id slug username w in
        IsAnswered w.db (r, w'.db)
  unfolding delete_comment_route
  delete_comment_route_answers parse_int id slug username =
      parsed-IsAnswered slug username (parse_int id)
