-- ===== src/Articles/Tags/Replace.antt =====
-- What a call of persistArticleTags or of replaceArticleTags that returned has done.
use nest_js_tutorial.Base.{
  ◌≡◌, refl, ap, sym, ◌∙◌, not-false, Bool, true, not, some, Text, ◌==◌, List, [], ◌∷◌, all, select,
  subst,
}
use nest_js_tutorial.Runtime.{returned}
use nest_js_tutorial.Runtime.Inversion.{after-returned}
use nest_js_tutorial.Database.{Db, Tag, ArticleTag, Orm, World}
use nest_js_tutorial.Database.Steps.{command-returned, query-step, command-step, throw_if-step}
use nest_js_tutorial.Articles.Tags.{
  contains, tag_id_of, is_some, tag_links, ordered_tag_names, add_links, drop_links, ensure_tags,
  ensure_tags_exist, insert_article_tag_links, persist_article_tags, replace_article_tags,
  unique_article_tag_names, names_of_links, order_by_position,
}
use nest_js_tutorial.Articles.Tags.Order.{HasUniqueTagIds, tag_id_of-find, ordered_after_replace}
use nest_js_tutorial.Base.{select-removed, select-none}

-- The tables after ensureTagsExist, and the tags that it read.
abbrev pub ensured : (Text → Text) → List Text → Db → Db
ensured new_id [] d = d
ensured new_id (n ∷ ns) d = ensure_tags new_id (n ∷ ns) d

abbrev pub stored_tags : List Text → Db → List Tag
stored_tags [] d = []
stored_tags (n ∷ ns) d = select (λ t. contains (n ∷ ns) (Tag.name t)) d.tags

-- The tables after insertArticleTagLinks.
abbrev pub linked : Text → List Text → List Tag → Db → Db
linked article_id [] stored d = d
linked article_id (n ∷ ns) stored d = add_links (tag_links article_id stored 0 (n ∷ ns)) d

abbrev pub all_stored : List Text → List Tag → Bool
all_stored names stored = all (λ name. is_some (tag_id_of stored name)) names

module _ (orm : Orm) (new_id : Text → Text) where
  ensure-returned :
      (names : List Text) (w w' : World orm.Env) (stored : List Tag)
      → ensure_tags_exist orm new_id names w ≡ (returned stored, w')
      → (w'.db ≡ ensured new_id names w.db)
        × (stored ≡ stored_tags names w'.db)
        × (all_stored names stored ≡ true)
  unfolding ensure_tags_exist
  ensure-returned [] w w' stored h = (cc, cc, refl)
  ensure-returned (n ∷ ns) w w' stored h =
      let names = n ∷ ns in
      let (t, ensured_tags, h) = command-step orm _ w (ensure_tags new_id names) h in
      let (t', same, h) = query-step orm _ t (stored_tags names) h in
      let (checked, done) =
        throw_if-step orm _ t' (not (all_stored names (stored_tags names t.db))) _ h in
      let same_stored : stored_tags names t.db ≡ stored = cc in
      let same_world : t' ≡ w' = cc in
      let end = ap World.db (sym same_world) ∙ same in
      (
        end ∙ ensured_tags,
        sym same_stored ∙ ap (stored_tags names) (sym end),
        subst (λ s. all_stored names s ≡ true) same_stored (not-false _ checked),
      )

  insert-returned :
      (article_id : Text) (names : List Text) (stored : List Tag) (w w' : World orm.Env)
      → insert_article_tag_links orm new_id article_id names stored w ≡ (returned tt, w')
      → w'.db ≡ linked article_id names stored w.db
  unfolding insert_article_tag_links
  insert-returned article_id [] stored w w' h = cc
  insert-returned article_id (n ∷ ns) stored w w' h =
      (command-returned orm w (add_links (tag_links article_id stored 0 (n ∷ ns))) h)

  -- The tables that a replacement leaves.
  pub replace_returned :
      (article_id : Text) (names : List Text) (w w' : World orm.Env) (r : List Text)
      → replace_article_tags orm new_id article_id names w ≡ (returned r, w')
      → let u = unique_article_tag_names names in
        (stored : List Tag) × (r ≡ u)
        × (w'.db ≡ linked article_id u stored (drop_links article_id (ensured new_id u w.db)))
        × (stored ≡ stored_tags u (ensured new_id u w.db))
        × (all_stored u stored ≡ true)
  unfolding replace_article_tags
  replace_returned article_id names w w' r h =
      let u = unique_article_tag_names names in
      let (stored, t, run, h) = after-returned (ensure_tags_exist orm new_id u w) _ h in
      let (start, from, complete) = ensure-returned u w t stored run in
      let (t', dropped, h) = command-step orm _ t (drop_links article_id) h in
      let (_, t'', run, h) =
        after-returned (insert_article_tag_links orm new_id article_id u stored t') _ h in
      let added = insert-returned article_id u stored t' t'' run in
      let same_world : t'' ≡ w' = cc in
      (
        stored,
        cc,
        ap World.db (sym same_world)
            ∙ added
            ∙ ap (linked article_id u stored) (dropped ∙ ap (drop_links article_id) start),
        from ∙ ap (stored_tags u) start,
        complete,
      )

-- The ordered names of the article are then the requested ones, each once.
ordered_after_linked :
    (article_id : Text) (names : List Text) (stored : List Tag) (d : Db)
    → stored ≡ stored_tags names d
    → all_stored names stored ≡ true
    → HasUniqueTagIds d.tags
    → ordered_tag_names article_id (linked article_id names stored (drop_links article_id d))
      ≡ names
unfolding ordered_tag_names drop_links order_by_position names_of_links
ordered_after_linked article_id [] stored d from complete unique =
    rw (select-removed (λ l. ArticleTag.article_id l == article_id) d.article_tags)
ordered_after_linked article_id (n ∷ ns) stored d from complete unique =
    ordered_after_replace d stored article_id (n ∷ ns)
      (λ name id h.
        tag_id_of-find (λ t. contains (n ∷ ns) (Tag.name t)) d.tags name id (unique id)
          (subst (λ s. tag_id_of s name ≡ some id) from h))
      complete

tags-linked :
    (article_id : Text) (names : List Text) (stored : List Tag) (d : Db)
    → (linked article_id names stored (drop_links article_id d)).tags ≡ d.tags
unfolding add_links drop_links
tags-linked article_id [] stored d = refl
tags-linked article_id (n ∷ ns) stored d = refl

links-ensured :
    (new_id : Text → Text) (names : List Text) (d : Db)
    → (ensured new_id names d).article_tags ≡ d.article_tags
unfolding ensure_tags
links-ensured new_id [] d = refl
links-ensured new_id (n ∷ ns) d = refl

drop_nothing :
    (article_id : Text) (d : Db)
    → select (λ l. ArticleTag.article_id l == article_id) d.article_tags ≡ []
    → drop_links article_id d ≡ d
unfolding drop_links
drop_nothing article_id d h =
    ap (λ links. record d { article_tags = links })
      (select-none (λ l. ArticleTag.article_id l == article_id) d.article_tags h)

linked-tables :
    (article_id : Text) (new_id : Text → Text) (names : List Text) (stored : List Tag) (d : Db)
    → let d' = linked article_id names stored (ensured new_id names d) in
      d' ≡ record d { tags = d'.tags; article_tags = d'.article_tags }
unfolding add_links ensure_tags
linked-tables article_id new_id [] stored d = refl
linked-tables article_id new_id (n ∷ ns) stored d = refl

module _ (orm : Orm) (new_id : Text → Text) where
  -- Whatever the driver does, if replaceArticleTags returns then the tags of the article, read back in
  -- the order of their positions, are the requested names without repetitions, provided that the
  -- resulting table of tags respects its primary key.
  pub replace_article_tags-ordered :
      (article_id : Text) (names : List Text) (w w' : World orm.Env) (r : List Text)
      → replace_article_tags orm new_id article_id names w ≡ (returned r, w')
      → HasUniqueTagIds w'.db.tags
      → (r ≡ unique_article_tag_names names)
        × (ordered_tag_names article_id w'.db ≡ unique_article_tag_names names)
  replace_article_tags-ordered article_id names w w' r h unique =
      let u = unique_article_tag_names names in
      let (stored, same, end, from, complete) =
        replace_returned orm new_id article_id names w w' r h in
      let d = ensured new_id u w.db in
      let tags : w'.db.tags ≡ d.tags = ap Db.tags end ∙ tags-linked article_id u stored d in
      (
        same,
        ap (ordered_tag_names article_id) end
            ∙ ordered_after_linked article_id u stored d from complete
                (subst HasUniqueTagIds tags unique),
      )

  -- The tables that persistArticleTags leaves.
  persist_returned :
      (article_id : Text) (names : List Text) (w w' : World orm.Env) (r : List Text)
      → persist_article_tags orm new_id article_id names w ≡ (returned r, w')
      → let u = unique_article_tag_names names in
        (stored : List Tag) × (r ≡ u)
        × (w'.db ≡ linked article_id u stored (ensured new_id u w.db))
        × (stored ≡ stored_tags u (ensured new_id u w.db))
        × (all_stored u stored ≡ true)
  unfolding persist_article_tags
  persist_returned article_id names w w' r h =
      let u = unique_article_tag_names names in
      let (stored, t, run, h) = after-returned (ensure_tags_exist orm new_id u w) _ h in
      let (start, from, complete) = ensure-returned orm new_id u w t stored run in
      let (_, t', run, h) =
        after-returned (insert_article_tag_links orm new_id article_id u stored t) _ h in
      let added = insert-returned orm new_id article_id u stored t t' run in
      let same_world : t' ≡ w' = cc in
      (
        stored,
        cc,
        ap World.db (sym same_world) ∙ added ∙ ap (linked article_id u stored) start,
        from ∙ ap (stored_tags u) start,
        complete,
      )

  -- The same for persistArticleTags on an article that has no tags yet.
  pub persist_article_tags-ordered :
      (article_id : Text) (names : List Text) (w w' : World orm.Env) (r : List Text)
      → persist_article_tags orm new_id article_id names w ≡ (returned r, w')
      → select (λ l. ArticleTag.article_id l == article_id) w.db.article_tags ≡ []
      → HasUniqueTagIds w'.db.tags
      → (r ≡ unique_article_tag_names names)
        × (ordered_tag_names article_id w'.db ≡ unique_article_tag_names names)
        × (w'.db ≡ record w.db { tags = w'.db.tags; article_tags = w'.db.article_tags })
  persist_article_tags-ordered article_id names w w' r h no_links unique =
      let u = unique_article_tag_names names in
      let (stored, same, end, from, complete) = persist_returned article_id names w w' r h in
      let d = ensured new_id u w.db in
      let nothing : drop_links article_id d ≡ d =
        drop_nothing article_id d (ap (select _) (links-ensured new_id u w.db) ∙ no_links) in
      let tags : w'.db.tags ≡ d.tags =
        ap Db.tags (end ∙ ap (linked article_id u stored) (sym nothing))
        ∙ tags-linked article_id u stored d in
      (
        same,
        ap (ordered_tag_names article_id) (end ∙ ap (linked article_id u stored) (sym nothing))
            ∙ ordered_after_linked article_id u stored d from complete
                (subst HasUniqueTagIds tags unique),
        subst (λ x. x ≡ record w.db { tags = Db.tags x; article_tags = Db.article_tags x })
            (sym end) (linked-tables article_id new_id u stored w.db),
      )
