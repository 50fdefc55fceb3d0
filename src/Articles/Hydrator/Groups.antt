-- ===== src/Articles/Hydrator/Groups.antt =====
-- The tags of a page of articles, ordered and grouped in one query, are the ordered tags of each.
use nest_js_tutorial.Base.{
  ◌≡◌, refl, sym, ap, ◌∙◌, Bool, true, false, ◌&&◌, some, Text, ◌==◌, ==_iff, List, [], ◌∷◌, ◌++◌,
  all, find, select, arith, if◌then◌else◌, Bool-cases, Option-cases, inl, inr,
}
use mathlib.Core.List.{append-nil, append_assoc}
use nest_js_tutorial.Database.{Db, Tag, ArticleTag}
use nest_js_tutorial.Articles.Tags.{
  contains, insert_by_position, order_by_position, names_of_links, ordered_tag_names,
}
use nest_js_tutorial.Articles.List.{text_leb}
use nest_js_tutorial.Articles.List.Page.{text_total}
use nest_js_tutorial.Articles.Hydrator.{
  get, set, or_else, link_leb, insert_link, order_links, tag_rows_of, tag_rows, group_names,
}

-- The order of texts.
text_transitive : (s t u : Text) → text_leb s t ≡ true → text_leb t u ≡ true → text_leb s u ≡ true
unfolding text_leb
text_transitive [] t u h k = refl
text_transitive (c ∷ s) [] u h k = cc
text_transitive (c ∷ s) (d ∷ t) [] h k = cc
text_transitive (c ∷ s) (d ∷ t) (e ∷ u) h k = ground (arith, text_transitive s t u)

text_antisymmetric : (s t : Text) → text_leb s t ≡ true → text_leb t s ≡ true → s == t ≡ true
unfolding text_leb ◌==◌
text_antisymmetric [] [] h k = refl
text_antisymmetric [] (d ∷ t) h k = cc
text_antisymmetric (c ∷ s) [] h k = cc
text_antisymmetric (c ∷ s) (d ∷ t) h k = ground (arith, text_antisymmetric s t)

-- The order of links.
link_total : (l m : ArticleTag) → link_leb l m ≡ false → link_leb m l ≡ true
unfolding link_leb
link_total l m h =
    let a = l.article_id in
    let b = m.article_id in ground (arith, ==_iff a b, ==_iff b a, text_total a b)

link_transitive :
    (l m n : ArticleTag) → link_leb l m ≡ true → link_leb m n ≡ true → link_leb l n ≡ true
unfolding link_leb
link_transitive l m n h k =
    let a = l.article_id in
    let b = m.article_id in
    let c = n.article_id in
    ground (
      arith,
      ==_iff a b,
      ==_iff b c,
      ==_iff a c,
      ==_iff b a,
      text_transitive a b c,
      text_antisymmetric a b,
      text_antisymmetric b a,
    )

all_after :
    (l m : ArticleTag) (ns : List ArticleTag)
    → link_leb l m ≡ true
    → all (link_leb m) ns ≡ true
    → all (link_leb l) ns ≡ true
all_after l m [] h k = refl
all_after l m (n ∷ ns) h k = ground (arith, link_transitive l m n h, all_after l m ns h)

abbrev is_ordered : List ArticleTag → Bool
is_ordered [] = true
is_ordered (l ∷ ls) = all (link_leb l) ls && is_ordered ls

all-insert_link :
    (p : ArticleTag → Bool) (l : ArticleTag) (ms : List ArticleTag)
    → p l ≡ true
    → all p ms ≡ true
    → all p (insert_link l ms) ≡ true
unfolding insert_link
all-insert_link p l [] h k = ground arith
all-insert_link p l (m ∷ ms) h k = ground (arith, all-insert_link p l ms h)

insert_link-is_ordered :
    (l : ArticleTag) (ms : List ArticleTag)
    → is_ordered ms ≡ true
    → is_ordered (insert_link l ms) ≡ true
unfolding insert_link
insert_link-is_ordered l [] h = refl
insert_link-is_ordered l (m ∷ ms) h = ground (
  arith,
  insert_link-is_ordered l ms,
  all_after l m ms,
  link_total l m,
  all-insert_link (link_leb m) l ms,
)

order_links-is_ordered : (ls : List ArticleTag) → is_ordered (order_links ls) ≡ true
unfolding order_links
order_links-is_ordered [] = refl
order_links-is_ordered (l ∷ ls) =
    insert_link-is_ordered l (order_links ls) (order_links-is_ordered ls)

module _ (id : Text) where
  abbrev pub of_article : ArticleTag → Bool
  of_article l = ArticleTag.article_id l == id

  -- A first link stays the first one of its article.
  insert_first :
      (l : ArticleTag) (ms : List ArticleTag)
      → of_article l ≡ true
      → all (link_leb l) ms ≡ true
      → insert_by_position l (select of_article ms) ≡ l ∷ select of_article ms
  unfolding insert_by_position select link_leb
  insert_first l [] h k = refl
  insert_first l (m ∷ ms) h k = ground (
    arith,
    insert_first l ms h,
    ==_iff l.article_id id,
    ==_iff m.article_id id,
    ==_iff l.article_id m.article_id,
  )

  -- The head of an ordered list, in front of which a link of the same article would go.
  insert_past :
      (l m : ArticleTag) (ms : List ArticleTag)
      → of_article l ≡ true
      → of_article m ≡ true
      → link_leb l m ≡ false
      → insert_by_position l (m ∷ ms) ≡ m ∷ insert_by_position l ms
  unfolding insert_by_position link_leb
  insert_past l m ms h k n =
      ground
        (arith, ==_iff l.article_id id, ==_iff m.article_id id, ==_iff l.article_id m.article_id)

  before_ordered :
      (l m : ArticleTag) (ms : List ArticleTag)
      → is_ordered (m ∷ ms) ≡ true
      → link_leb l m ≡ true
      → all (link_leb l) (m ∷ ms) ≡ true
  before_ordered l m ms h k = ground (arith, all_after l m ms k)

  select-insert_link :
      (l : ArticleTag) (ms : List ArticleTag)
      → is_ordered ms ≡ true
      → of_article l ≡ true
      → select of_article (insert_link l ms) ≡ insert_by_position l (select of_article ms)
  unfolding select insert_link
  select-insert_link l [] h k = unfold insert_by_position in ground arith
  select-insert_link l (m ∷ ms) h k =
      let first = insert_first l (m ∷ ms) k in
      ground (
        arith,
        before_ordered l m ms h,
        first,
        insert_past l m (select of_article ms) k,
        select-insert_link l ms,
      )

  select-insert_other :
      (l : ArticleTag) (ms : List ArticleTag)
      → of_article l ≡ false
      → select of_article (insert_link l ms) ≡ select of_article ms
  unfolding select insert_link
  select-insert_other l [] h = ground arith
  select-insert_other l (m ∷ ms) h = ground (arith, select-insert_other l ms h)

  select-order_links :
      (ls : List ArticleTag)
      → select of_article (order_links ls) ≡ order_by_position (select of_article ls)
  unfolding order_links order_by_position select
  select-order_links [] = refl
  select-order_links (l ∷ ls) = ground (
    arith,
    select-order_links ls,
    order_links-is_ordered ls,
    select-insert_link l (order_links ls),
    select-insert_other l (order_links ls),
  )

  -- The names of the rows of this article.
  abbrev names_for : List (Text × Text) → List Text
  names_for [] = []
  names_for ((key, name) ∷ rows) = if key == id then name ∷ names_for rows else names_for rows

  names_for-tag_rows_of :
      (tags : List Tag) (ls : List ArticleTag)
      → names_for (tag_rows_of tags ls) ≡ names_of_links tags (select of_article ls)
  unfolding tag_rows_of names_of_links select
  names_for-tag_rows_of tags [] = refl
  names_for-tag_rows_of tags (l ∷ ls) =
      elim (Option-cases (find (λ t. Tag.id t == l.tag_id) tags)) [
        | inl absent ↦ ground (arith, names_for-tag_rows_of tags ls)
        | inr (t, found) ↦ ground (arith, names_for-tag_rows_of tags ls)
      ]

  get-set :
      {A : Type 0} (key : Text) (value : A) (entries : List (Text × A))
      → get id (set key value entries) ≡ (if key == id then some value else get id entries)
  unfolding get set
  get-set key value [] = refl
  get-set key value ((other, old) ∷ entries) =
      ground (arith, get-set key value entries, ==_iff other key, ==_iff key id, ==_iff other id)

  or_else-set :
      (key : Text) (names : List Text) (entries : List (Text × List Text))
      → or_else (get id (set key names entries)) []
        ≡ (if key == id then names else or_else (get id entries) [])
  or_else-set key names entries = ground (arith, get-set key names entries)

  get-group_names :
      (tags : List (Text × List Text)) (rows : List (Text × Text))
      → or_else (get id (group_names tags rows)) [] ≡ or_else (get id tags) [] ++ names_for rows
  unfolding group_names
  get-group_names tags [] = sym (append-nil _)
  get-group_names tags ((key, name) ∷ rows) =
      let pushed = or_else (get key tags) [] ++ name ∷ [] in
      let ih = get-group_names (set key pushed tags) rows in
      let at = or_else-set key pushed tags in
      elim (Bool-cases (key == id)) [
        | inl own ↦
            let same = (==_iff key id).0 own in
            let now : or_else (get id (set key pushed tags)) []
                ≡ or_else (get id tags) [] ++ name ∷ [] =
              at ∙ rw own (ap (λ k. or_else (get k tags) [] ++ name ∷ []) same) in
            ih
            ∙ ap (λ x. x ++ names_for rows) now
            ∙ append_assoc (or_else (get id tags) []) (name ∷ []) (names_for rows)
            ∙ ap
                (λ b.
                  or_else (get id tags) [] ++ (if b then name ∷ names_for rows else names_for rows))
                (sym own)
        | inr foreign ↦
            let now : or_else (get id (set key pushed tags)) [] ≡ or_else (get id tags) [] =
              at ∙ ap (λ b. if b then pushed else or_else (get id tags) []) foreign in
            ih
            ∙ ap (λ x. x ++ names_for rows) now
            ∙ ap
                (λ b.
                  or_else (get id tags) [] ++ (if b then name ∷ names_for rows else names_for rows))
                (sym foreign)
      ]

  select-contained :
      (ids : List Text) (ls : List ArticleTag)
      → contains ids id ≡ true
      → select of_article (select (λ l. contains ids (ArticleTag.article_id l)) ls)
        ≡ select of_article ls
  unfolding select
  select-contained ids [] h = refl
  select-contained ids (l ∷ ls) h =
      let known : of_article l ≡ true → contains ids l.article_id ≡ true =
        λ e. rw ((==_iff l.article_id id).0 e) h in
      ground (arith, select-contained ids ls h, known)

  -- The names that the page shows of an article on it are the ordered tags of the article.
  pub group_names-ordered :
      (ids : List Text) (d : Db)
      → contains ids id ≡ true
      → or_else (get id (group_names [] (tag_rows ids d))) [] ≡ ordered_tag_names id d
  unfolding tag_rows ordered_tag_names get
  group_names-ordered ids d h =
      let ls = select (λ l. contains ids (ArticleTag.article_id l)) d.article_tags in
      get-group_names [] (tag_rows ids d)
      ∙ names_for-tag_rows_of d.tags (order_links ls)
      ∙ ap (names_of_links d.tags)
          (select-order_links ls ∙ ap order_by_position (select-contained ids d.article_tags h))
