-- ===== src/Articles/Update/Steps.antt =====
-- The parts of ArticleUpdateService.update: what each has done when it has returned.
use nest_js_tutorial.Base.{
  ℕ, ◌≡◌, refl, sym, ap, ◌∙◌, subst, Bool, true, false, not, not-false, ◌⊎◌, Option, none, some,
  Text, ◌==◌, ==_iff, List, [], ◌∷◌, arith, if◌then◌else◌, find-map, Bool-cases, inl, inr,
}
use nest_js_tutorial.Runtime.{returned}
use nest_js_tutorial.Runtime.Inversion.{after-returned}
use nest_js_tutorial.Database.{Db, Article, Tag, Orm, World}
use nest_js_tutorial.Database.Statements.{article_by_slug}
use nest_js_tutorial.Database.Steps.{query-step, command-returned}
use nest_js_tutorial.Articles.Tags.{
  unique_article_tag_names, ordered_tag_names, replace_article_tags, drop_links, add_links,
  ensure_tags,
}
use nest_js_tutorial.Articles.Tags.Order.{HasUniqueTagIds}
use nest_js_tutorial.Articles.Tags.Unique.{unique_idempotent}
use nest_js_tutorial.Articles.Tags.Replace.{
  replace_returned, replace_article_tags-ordered, linked, ensured,
}
use nest_js_tutorial.Articles.Update.{
  ArticleUpdateDto, differs, or_current, scalar_changed, apply_scalar_changes, update_article,
  saved, has_same_ordered_tag_names, save_scalars, touch_unless, replace_if, update_tags,
}
use nest_js_tutorial.Articles.Update.Frame.{
  IsUntouched, IsUntouched-refl, IsUntouched-trans, update_article-IsUntouched, ensured-IsUntouched,
  linked-IsUntouched,
}

-- The article of this slug is stored in all its columns, with its old time of the last change or with
-- this one.
abbrev pub Holds : Text → ℕ → Article → Db → Type 0
Holds slug now article d =
    (time : ℕ) × (article_by_slug slug d ≡ some (record article { updated_at = time }))
    × ((time ≡ now) ⊎ (time ≡ article.updated_at))

or_current_same :
    (current : Text) (o : Option Text) → differs current o ≡ false → current ≡ or_current o current
or_current_same current none h = refl
or_current_same current (some s) h = (==_iff current s).0 (not-false _ h)

pub after_id :
    (article : Article) (request : ArticleUpdateDto)
    → (apply_scalar_changes article request).id ≡ article.id
unfolding apply_scalar_changes
after_id article request = refl

unchanged_Holds :
    (slug : Text) (now : ℕ) (article : Article) (request : ArticleUpdateDto) (d : Db)
    → article_by_slug slug d ≡ some article
    → scalar_changed article request ≡ false
    → Holds slug now (apply_scalar_changes article request) d
unfolding scalar_changed apply_scalar_changes
unchanged_Holds slug now article request d h same =
    let title = or_current_same article.title request.title (ground arith) in
    let description = or_current_same article.description request.description (ground arith) in
    let content = or_current_same article.body request.body (ground arith) in
    let kept : article ≡ apply_scalar_changes article request = cc (title, description, content) in
    (article.updated_at, h ∙ ap some kept, inr refl)

changed_slug :
    (id : Text) (change : Article → Article) (a : Article)
    → ((a : Article) → (change a).slug ≡ a.slug)
    → (if Article.id a == id then change a else a).slug ≡ a.slug
changed_slug id change a keeps = elim (Bool-cases (a.id == id)) [
  | inl its ↦ rw its (keeps a)
  | inr other ↦ rw other
]

-- A change of the article of this id keeps it under its slug.
update_article-by_slug :
    (slug id : Text) (change : Article → Article) (d : Db) (row : Article)
    → ((a : Article) → (change a).slug ≡ a.slug)
    → article_by_slug slug d ≡ some row
    → row.id ≡ id
    → article_by_slug slug (update_article id change d) ≡ some (change row)
unfolding article_by_slug update_article
update_article-by_slug slug id change d row keeps h same =
    let its : (row.id == id) ≡ true = (==_iff row.id id).1 same in
    find-map (λ a. Article.slug a == slug) (λ a. if Article.id a == id then change a else a)
      d.articles (λ a. ap (λ s. s == slug) (changed_slug id change a keeps)) h
    ∙ rw its

has_same_lem : (xs ys : List Text) → has_same_ordered_tag_names xs ys ≡ true → xs ≡ ys
unfolding has_same_ordered_tag_names
has_same_lem [] [] h = refl
has_same_lem (x ∷ xs) (y ∷ ys) h = ground (arith, has_same_lem xs ys, ==_iff x y)
has_same_lem [] (y ∷ ys) h = cc
has_same_lem (x ∷ xs) [] h = cc

linked-Holds :
    (slug id : Text) (now : ℕ) (article : Article) (new_id : Text → Text) (names : List Text)
    (stored : List Tag) (d : Db)
    → Holds slug now article d
    → Holds slug now article (linked id names stored (drop_links id (ensured new_id names d)))
unfolding add_links drop_links ensure_tags article_by_slug
linked-Holds slug id now article new_id [] stored d held = held
linked-Holds slug id now article new_id (n ∷ ns) stored d held = held

-- The tags after an update: those of the request, where it has any.
abbrev pub updated_tags : Option (List Text) → List Text → List Text
updated_tags none old = old
updated_tags (some names) old = unique_article_tag_names names

-- The names that a request may add to the table of the tags.
abbrev pub requested_names : Option (List Text) → List Text
requested_names none = []
requested_names (some names) = unique_article_tag_names names

update_article-tags :
    (id other : Text) (change : Article → Article) (d : Db)
    → ordered_tag_names id (update_article other change d) ≡ ordered_tag_names id d
unfolding update_article ordered_tag_names
update_article-tags id other change d = refl

module _ (orm : Orm) (now : ℕ) (new_id : Text → Text) where
  pub save_returned :
      (slug : Text) (names : List Text) (article : Article) (request : ArticleUpdateDto)
      (w w' : World orm.Env)
      → article_by_slug slug w.db ≡ some article
      → save_scalars orm now new_id
          (scalar_changed article request)
          (apply_scalar_changes article request)
          w
        ≡ (returned tt, w')
      → IsUntouched article.id names w.db w'.db
        × Holds slug now (apply_scalar_changes article request) w'.db
        × (ordered_tag_names article.id w'.db ≡ ordered_tag_names article.id w.db)
  unfolding save_scalars apply_scalar_changes
  save_returned slug names article request w w' found h =
      elim (Bool-cases (scalar_changed article request)) [
        | inr same ↦
            let h = rw same at h in
            let same_db : w.db ≡ w'.db = cc in
            (
              subst (IsUntouched article.id names w.db) same_db
                  (IsUntouched-refl article.id names w.db),
              subst (Holds slug now (apply_scalar_changes article request)) same_db
                  (unchanged_Holds slug now article request w.db found same),
              sym (ap (ordered_tag_names article.id) same_db),
            )
        | inl changed ↦
            let after = apply_scalar_changes article request in
            let h = rw changed at h in
            let db = command-returned orm w (update_article after.id (saved now after)) h in
            (
              subst (IsUntouched article.id names w.db) (sym db)
                  (update_article-IsUntouched article.id names (saved now after) w.db (λ a. refl)),
              subst (Holds slug now after) (sym db) (
                now,
                update_article-by_slug slug article.id (saved now after) w.db article (λ a. refl)
                    found refl,
                inl refl,
              ),
              ap (ordered_tag_names article.id) db
                  ∙ update_article-tags article.id after.id (saved now after) w.db,
            )
      ]

  touch_returned :
      (slug id : Text) (names : List Text) (article : Article) (changed : Bool)
      (w w' : World orm.Env)
      → touch_unless orm now new_id changed id w ≡ (returned tt, w')
      → Holds slug now article w.db
      → article.id ≡ id
      → IsUntouched id names w.db w'.db × Holds slug now article w'.db
  unfolding touch_unless
  touch_returned slug id names article true w w' h held same =
      let same_db : w.db ≡ w'.db = cc in
      (
        subst (IsUntouched id names w.db) same_db (IsUntouched-refl id names w.db),
        subst (Holds slug now article) same_db held,
      )
  touch_returned slug id names article false w w' h (time, found, old) same =
      let change = λ (row : Article). record row { updated_at = now } in
      let db = command-returned orm w (update_article id change) h in
      (
        subst (IsUntouched id names w.db) (sym db)
            (update_article-IsUntouched id names change w.db (λ a. refl)),
        subst (Holds slug now article) (sym db) (
          now,
          update_article-by_slug slug id change w.db (record article { updated_at = time })
              (λ a. refl) found same,
          inl refl,
        ),
      )

  replace-returned :
      (slug id : Text) (article : Article) (names : List Text) (w w' : World orm.Env)
      (r : List Text)
      → replace_article_tags orm new_id id names w ≡ (returned r, w')
      → Holds slug now article w.db
      → IsUntouched id (unique_article_tag_names names) w.db w'.db × Holds slug now article w'.db
  unfolding add_links drop_links ensure_tags article_by_slug
  replace-returned slug id article names w w' r h held =
      let u = unique_article_tag_names names in
      let (stored, same, db, from, complete) = replace_returned orm new_id id names w w' r h in
      let d = ensured new_id u w.db in
      let untouched =
        IsUntouched-trans id u w.db d (linked id u stored (drop_links id d))
          (ensured-IsUntouched id new_id u w.db) (linked-IsUntouched id u stored d) in
      (
        subst (IsUntouched id u w.db) (sym db) untouched,
        subst (Holds slug now article) (sym db)
            (linked-Holds slug id now article new_id u stored w.db held),
      )

  -- The tags of an update.
  replace_if-returned :
      (slug id : Text) (article : Article) (differ changed : Bool) (names : List Text)
      (w w' : World orm.Env)
      → replace_if orm now new_id differ changed id names w ≡ (returned tt, w')
      → Holds slug now article w.db
      → article.id ≡ id
      → (IsUntouched id (unique_article_tag_names names) w.db w'.db × Holds slug now article w'.db)
        × (differ ≡ true
            → HasUniqueTagIds w'.db.tags
            → ordered_tag_names id w'.db ≡ unique_article_tag_names names)
        × (differ ≡ false → w'.db ≡ w.db)
  unfolding replace_if
  replace_if-returned slug id article false changed names w w' h held same =
      let same_db : w.db ≡ w'.db = cc in
      (
        (
          subst (IsUntouched id (unique_article_tag_names names) w.db) same_db
              (IsUntouched-refl id (unique_article_tag_names names) w.db),
          subst (Holds slug now article) same_db held,
        ),
        (λ p. cc),
        (λ p. sym same_db),
      )
  replace_if-returned slug id article true changed names w w' h held same =
      let (_, t, run, h) = after-returned (touch_unless orm now new_id changed id w) _ h in
      let (first, held) =
        touch_returned slug id (unique_article_tag_names names) article changed w t run held same in
      let (r, t', run, h) = after-returned (replace_article_tags orm new_id id names t) _ h in
      let (second, held) = replace-returned slug id article names t t' r run held in
      let same_world : t' ≡ w' = cc in
      (
        subst
            (λ (x : World orm.Env).
              IsUntouched id (unique_article_tag_names names) w.db x.db
              × Holds slug now article x.db)
            same_world
            (
              IsUntouched-trans id (unique_article_tag_names names) w.db t.db t'.db first second,
              held,
            ),
        (λ p unique.
            subst
              (λ (x : World orm.Env).
                HasUniqueTagIds x.db.tags
                → ordered_tag_names id x.db ≡ unique_article_tag_names names)
              same_world
              (λ unique. (replace_article_tags-ordered orm new_id id names t t' r run unique).1)
              unique),
        (λ p. cc),
      )

  pub update_tags-returned :
      (slug id : Text) (article : Article) (changed : Bool) (tag_list : Option (List Text))
      (w w' : World orm.Env)
      → update_tags orm now new_id changed id tag_list w ≡ (returned tt, w')
      → Holds slug now article w.db
      → article.id ≡ id
      → IsUntouched id (requested_names tag_list) w.db w'.db
        × Holds slug now article w'.db
        × (HasUniqueTagIds w'.db.tags
            → ordered_tag_names id w'.db ≡ updated_tags tag_list (ordered_tag_names id w.db))
  unfolding update_tags
  update_tags-returned slug id article changed none w w' h held same =
      let same_db : w.db ≡ w'.db = cc in
      (
        subst (IsUntouched id [] w.db) same_db (IsUntouched-refl id [] w.db),
        subst (Holds slug now article) same_db held,
        (λ unique. sym (ap (ordered_tag_names id) same_db)),
      )
  update_tags-returned slug id article changed (some tag_list) w w' h held same =
      let requested = unique_article_tag_names tag_list in
      let (t, same_db, h) = query-step orm _ w (ordered_tag_names id) h in
      let differ = not (has_same_ordered_tag_names (ordered_tag_names id w.db) requested) in
      let (kept, replaced, left) =
        replace_if-returned slug id article differ changed requested t w' h
          (subst (Holds slug now article) (sym same_db) held) same in
      (
        subst (λ names. IsUntouched id names w.db w'.db) (unique_idempotent tag_list)
            (subst (λ d. IsUntouched id (unique_article_tag_names requested) d w'.db) same_db
              kept.0),
        kept.1,
        (λ unique. elim (Bool-cases differ) [
          | inl changed ↦ replaced changed unique ∙ unique_idempotent tag_list
          | inr alike ↦
              ap (ordered_tag_names id) (left alike ∙ same_db)
              ∙ has_same_lem (ordered_tag_names id w.db) requested (not-false _ alike)
        ]),
      )
