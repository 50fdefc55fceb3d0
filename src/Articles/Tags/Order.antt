-- ===== src/Articles/Tags/Order.antt =====
-- The tags of an article are read back in the order in which they were written.
use nest_js_tutorial.Base.{
  ℕ, suc, ◌≤◌, ◌≡◌, refl, ap, ◌∙◌, Bool, true, not, some, Text, ◌==◌, ==_iff, ==_refl, List, [],
  ◌∷◌, all, find, select, count, arith, Bool-cases, Option-cases, inl, inr, find-count, find-some,
  select-append, select-removed,
}
use nest_js_tutorial.Database.{Db, Tag, ArticleTag}
use nest_js_tutorial.Articles.Tags.{
  tag_id_of, is_some, tag_links, insert_by_position, order_by_position, names_of_links,
  ordered_tag_names, add_links, drop_links,
}

-- The primary key of the tags.
abbrev pub HasUniqueTagIds : List Tag → Type 0
HasUniqueTagIds tags = (id : Text) → count (λ t. Tag.id t == id) tags ≤ 1

-- The rest of a table in which `find` looks past its first row.
find_past :
    (t : Tag) (ts : List Tag) (id : Text) (t' : Tag)
    → count (λ t. Tag.id t == id) (t ∷ ts) ≤ 1
    → find (λ t. Tag.id t == id) ts ≡ some t'
    → find (λ t. Tag.id t == id) (t ∷ ts) ≡ some t'
unfolding find count
find_past t ts id t' u h = ground (
  arith,
  find-count (λ t. Tag.id t == id) (λ t. Tag.id t == id) ts h
      (find-some (λ t. Tag.id t == id) ts h),
)

count_past :
    (t : Tag) (ts : List Tag) (id : Text)
    → count (λ t. Tag.id t == id) (t ∷ ts) ≤ 1
    → count (λ t. Tag.id t == id) ts ≤ 1
unfolding count
count_past t ts id u = ground arith

-- An id that the map of the stored tags gives to a name is the id of a tag of that name.
pub tag_id_of-find :
    (p : Tag → Bool) (tags : List Tag) (name id : Text)
    → count (λ t. Tag.id t == id) tags ≤ 1
    → tag_id_of (select p tags) name ≡ some id
    → (t : Tag) × (find (λ t. Tag.id t == id) tags ≡ some t) × (t.name ≡ name)
unfolding tag_id_of select find count
tag_id_of-find p [] name id u h = cc
tag_id_of-find p (t ∷ ts) name id u h = elim (Option-cases (tag_id_of (select p ts) name)) [
  | inr (id', later) ↦
      let same_id : id' ≡ id = ground arith in
      let (t', found, same) =
        tag_id_of-find p ts name id (count_past t ts id u) (later ∙ ap some same_id) in
      (t', find_past t ts id t' u found, same)
  | inl none_later ↦ elim (Bool-cases (p t)) [
    | inl chosen ↦
        let same : (t.name == name) ≡ true = ground arith in
        let same_id : t.id ≡ id = ground arith in
        (t, ground (arith, ==_iff t.id id), (==_iff t.name name).0 same)
    | inr passed ↦ ground arith
  ]
]

names_of_tag_links :
    (tags stored : List Tag) (article_id : Text) (position : ℕ) (names : List Text)
    → ((name id : Text)
        → tag_id_of stored name ≡ some id
        → (t : Tag) × (find (λ t. Tag.id t == id) tags ≡ some t) × (t.name ≡ name))
    → all (λ name. is_some (tag_id_of stored name)) names ≡ true
    → names_of_links tags (tag_links article_id stored position names) ≡ names
unfolding names_of_links tag_links
names_of_tag_links tags stored article_id position [] known h = refl
names_of_tag_links tags stored article_id position (name ∷ names) known h =
    elim (Option-cases (tag_id_of stored name)) [
      | inl missing ↦ ground arith
      | inr (id, found) ↦
          let (t, row, same) = known name id found in
          ground (arith, names_of_tag_links tags stored article_id (suc position) names known)
    ]

order_tag_links :
    (stored : List Tag) (article_id : Text) (position : ℕ) (names : List Text)
    → order_by_position (tag_links article_id stored position names)
      ≡ tag_links article_id stored position names
unfolding order_by_position insert_by_position tag_links
order_tag_links stored article_id position [] = refl
order_tag_links stored article_id position (m ∷ []) = refl
order_tag_links stored article_id position (m ∷ n ∷ names) =
    rw (order_tag_links stored article_id (suc position) (n ∷ names)) (ground arith)

select-tag_links :
    (stored : List Tag) (article_id : Text) (position : ℕ) (names : List Text)
    → select
        (λ l. ArticleTag.article_id l == article_id)
        (tag_links article_id stored position names)
      ≡ tag_links article_id stored position names
unfolding select tag_links
select-tag_links stored article_id position [] = refl
select-tag_links stored article_id position (n ∷ names) =
    rw (==_refl article_id) (rw (select-tag_links stored article_id (suc position) names))

-- After a replacement of the links of an article its ordered names are the new ones.
pub ordered_after_replace :
    (d : Db) (stored : List Tag) (article_id : Text) (names : List Text)
    → ((name id : Text)
        → tag_id_of stored name ≡ some id
        → (t : Tag) × (find (λ t. Tag.id t == id) d.tags ≡ some t) × (t.name ≡ name))
    → all (λ name. is_some (tag_id_of stored name)) names ≡ true
    → ordered_tag_names article_id
        (add_links (tag_links article_id stored 0 names) (drop_links article_id d))
      ≡ names
unfolding ordered_tag_names add_links drop_links
ordered_after_replace d stored article_id names known h =
    rw
      (select-append (λ l. ArticleTag.article_id l == article_id)
        (select (λ l. not (ArticleTag.article_id l == article_id)) d.article_tags)
        (tag_links article_id stored 0 names))
      (rw (select-removed (λ l. ArticleTag.article_id l == article_id) d.article_tags) (
        rw (select-tag_links stored article_id 0 names) (
          rw (order_tag_links stored article_id 0 names)
            (names_of_tag_links d.tags stored article_id 0 names known h))))
