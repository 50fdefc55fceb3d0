-- ===== src/Tags.antt =====
-- TagsService and TagsController (tags/tags.service.ts, tags/tags.controller.ts).
pub mod Laws
use nest_js_tutorial.Base.{Bool, Text, List, [], ◌∷◌, map, if◌then◌else◌}
use nest_js_tutorial.Runtime.{Outcome, returned, M, pure, ◌>>=◌}
use nest_js_tutorial.Database.{Db, Tag, Orm, World, query}

-- The body of the response.
pub record TagList : Type 0 where
  pub tags : List Text

-- `collate a b`: the collation of the database has `a` before `b`, or equal to it.
module _ (collate : Text → Text → Bool) where
  -- `order: { name: 'ASC' }`
  unfoldable pub insert_by_name : Tag → List Tag → List Tag
  insert_by_name t [] = t ∷ []
  insert_by_name t (u ∷ us) = if collate t.name u.name then t ∷ u ∷ us else u ∷ insert_by_name t us

  unfoldable pub order_by_name : List Tag → List Tag
  unfolding insert_by_name
  order_by_name [] = []
  order_by_name (t ∷ ts) = insert_by_name t (order_by_name ts)

  -- listNames
  unfoldable pub list_names : (orm : Orm) → M (World orm.Env) (List Text)
  unfolding order_by_name
  list_names orm = do
    tags ← orm.execute (query (λ d. order_by_name (Db.tags d)))
    pure (map Tag.name tags)

  -- `list` of the controller.
  unfoldable pub tags_route : (orm : Orm) → M (World orm.Env) TagList
  unfolding list_names
  tags_route orm = do names ← list_names orm; pure (record { tags = names })
