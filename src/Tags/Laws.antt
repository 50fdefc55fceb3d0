-- ===== src/Tags/Laws.antt =====
-- What a list of the tags shows.
use nest_js_tutorial.Base.{
  ◌≡◌, refl, ap, ◌∙◌, Bool, true, false, ◌&&◌, Text, ◌==◌, List, [], ◌∷◌, map, count, arith,
}
use nest_js_tutorial.Runtime.{returned}
use nest_js_tutorial.Runtime.Inversion.{after-returned}
use nest_js_tutorial.Database.{Db, Tag, Orm, World}
use nest_js_tutorial.Database.Steps.{query-step}
use nest_js_tutorial.Tags.{TagList, insert_by_name, order_by_name, list_names, tags_route}

module _ (collate : Text → Text → Bool) where
  -- Each name stands before the next one, or is equal to it.
  abbrev pub is_before : Text → List Text → Bool
  is_before a [] = true
  is_before a (b ∷ bs) = collate a b

  abbrev pub is_sorted : List Text → Bool
  is_sorted [] = true
  is_sorted (a ∷ more) = is_before a more && is_sorted more

  count-insert :
      (p : Text → Bool) (t : Tag) (ts : List Tag)
      → count p (map Tag.name (insert_by_name collate t ts)) ≡ count p (map Tag.name (t ∷ ts))
  unfolding insert_by_name count
  count-insert p t [] = refl
  count-insert p t (u ∷ us) = ground (arith, count-insert p t us)

  count-order :
      (p : Text → Bool) (ts : List Tag)
      → count p (map Tag.name (order_by_name collate ts)) ≡ count p (map Tag.name ts)
  unfolding order_by_name count
  count-order p [] = refl
  count-order p (t ∷ ts) =
      ground (arith, count-insert p t (order_by_name collate ts), count-order p ts)

  module _ (total : (a b : Text) → collate a b ≡ false → collate b a ≡ true) where
    -- The first name after an insertion is the inserted one or the one before.
    before-insert :
        (a : Text) (t : Tag) (ts : List Tag)
        → collate a t.name ≡ true
        → is_before a (map Tag.name ts) ≡ true
        → is_before a (map Tag.name (insert_by_name collate t ts)) ≡ true
    unfolding insert_by_name
    before-insert a t [] h k = h
    before-insert a t (u ∷ us) h k = ground arith

    insert-sorted :
        (t : Tag) (ts : List Tag)
        → is_sorted (map Tag.name ts) ≡ true
        → is_sorted (map Tag.name (insert_by_name collate t ts)) ≡ true
    unfolding insert_by_name
    insert-sorted t [] h = refl
    insert-sorted t (u ∷ us) h =
        ground (arith, total t.name u.name, before-insert u.name t us, insert-sorted t us)

    order-sorted : (ts : List Tag) → is_sorted (map Tag.name (order_by_name collate ts)) ≡ true
    unfolding order_by_name
    order-sorted [] = refl
    order-sorted (t ∷ ts) = insert-sorted t (order_by_name collate ts) (order-sorted ts)

    -- Whatever the driver does, if the tags are listed then no row has changed, the names are in the
    -- order of the database's collation, and each name is there as often as it is stored, if the
    -- collation compares any two names.
    pub tags_route_returned :
        (orm : Orm) (w w' : World orm.Env) (r : TagList)
        → tags_route collate orm w ≡ (returned r, w')
        → (w'.db ≡ w.db)
          × (is_sorted r.tags ≡ true)
          × ((name : Text)
              → count (λ n. n == name) r.tags ≡ count (λ n. n == name) (map Tag.name w.db.tags))
    unfolding tags_route list_names
    tags_route_returned orm w w' r h =
        let (names, t, run, h) = after-returned (list_names collate orm w) _ h in
        let (u, same, run) = query-step orm _ w (λ d. order_by_name collate (Db.tags d)) run in
        let sorted = order_by_name collate w.db.tags in
        let shown : r.tags ≡ map Tag.name sorted = cc in
        let ends : w' ≡ u = cc in
        (
          ap World.db ends ∙ same,
          ap is_sorted shown ∙ order-sorted w.db.tags,
          λ name. ap (count (λ n. n == name)) shown ∙ count-order (λ n. n == name) w.db.tags,
        )
