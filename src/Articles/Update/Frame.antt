-- ===== src/Articles/Update/Frame.antt =====
-- What an update of an article leaves alone.
use nest_js_tutorial.Base.{
  ◌≡◌, refl, sym, ap, any, all, ◌∙◌, Bool, true, not, Text, ◌==◌, List, [], ◌∷◌, ◌++◌, map, select,
  arith, if◌then◌else◌, ==_refl, select-append, Bool-cases, inl, inr,
}
use mathlib.Core.Path.{ap₂}
use mathlib.Core.List.{append-nil, append_assoc}
use nest_js_tutorial.Database.{Db, Article, Tag, ArticleTag}
use nest_js_tutorial.Articles.Tags.{
  contains, insert_tags, tag_links, add_links, drop_links, ensure_tags,
}
use nest_js_tutorial.Articles.Tags.Replace.{ensured, linked}
use nest_js_tutorial.Articles.Update.{update_article}

abbrev pub other_articles : Text → Db → List Article
other_articles id d = select (λ a. not (Article.id a == id)) d.articles

abbrev pub other_links : Text → Db → List ArticleTag
other_links id d = select (λ l. not (ArticleTag.article_id l == id)) d.article_tags

-- The tags that are stored stay, and those that are added have one of these names.
abbrev pub IsGrown : List Text → List Tag → List Tag → Type 0
IsGrown names tags tags' =
    (more : List Tag) × (tags' ≡ tags ++ more)
    × (all (λ t. contains names (Tag.name t)) more ≡ true)

all-append :
    (p : Tag → Bool) (xs ys : List Tag)
    → all p xs ≡ true
    → all p ys ≡ true
    → all p (xs ++ ys) ≡ true
all-append p [] ys h k = k
all-append p (x ∷ xs) ys h k = ground (arith, all-append p xs ys)

IsGrown-trans :
    (names : List Text) (a b c : List Tag)
    → IsGrown names a b
    → IsGrown names b c
    → IsGrown names a c
IsGrown-trans names a b c (m, p, h) (n, q, k) = (
  m ++ n,
  q ∙ ap (λ x. x ++ n) p ∙ append_assoc a m n,
  all-append (λ t. contains names (Tag.name t)) m n h k,
)

-- Only the article of this id and its links to tags may differ, and the table of the tags may have
-- grown by these names.
pub record IsUntouched (id : Text) (names : List Text) (d d' : Db) : Type 0 where
  pub grown_tags : IsGrown names d.tags d'.tags
  pub same_users : d'.users ≡ d.users
  pub same_favorites : d'.article_favorites ≡ d.article_favorites
  pub same_comments : d'.comments ≡ d.comments
  pub same_follows : d'.user_follows ≡ d.user_follows
  pub same_attachments : d'.attachments ≡ d.attachments
  pub same_outbox : d'.outbox ≡ d.outbox
  pub same_articles : other_articles id d' ≡ other_articles id d
  pub same_links : other_links id d' ≡ other_links id d

unchanged_tags : (names : List Text) (tags : List Tag) → IsGrown names tags tags
unchanged_tags names tags = ([], sym (append-nil tags), refl)

pub IsUntouched-refl : (id : Text) (names : List Text) (d : Db) → IsUntouched id names d d
IsUntouched-refl id names d = record {
  grown_tags = unchanged_tags names d.tags;
  same_users = refl;
  same_favorites = refl;
  same_comments = refl;
  same_follows = refl;
  same_attachments = refl;
  same_outbox = refl;
  same_articles = refl;
  same_links = refl;
}

pub IsUntouched-trans :
    (id : Text) (names : List Text) (d e f : Db)
    → IsUntouched id names d e
    → IsUntouched id names e f
    → IsUntouched id names d f
IsUntouched-trans id names d e f p q = record {
  grown_tags = IsGrown-trans names d.tags e.tags f.tags p.grown_tags q.grown_tags;
  same_users = q.same_users ∙ p.same_users;
  same_favorites = q.same_favorites ∙ p.same_favorites;
  same_comments = q.same_comments ∙ p.same_comments;
  same_follows = q.same_follows ∙ p.same_follows;
  same_attachments = q.same_attachments ∙ p.same_attachments;
  same_outbox = q.same_outbox ∙ p.same_outbox;
  same_articles = q.same_articles ∙ p.same_articles;
  same_links = q.same_links ∙ p.same_links;
}

other_articles-map :
    (id : Text) (change : Article → Article) (xs : List Article)
    → ((a : Article) → (change a).id ≡ a.id)
    → select
        (λ a. not (Article.id a == id))
        (map (λ a. if Article.id a == id then change a else a) xs)
      ≡ select (λ a. not (Article.id a == id)) xs
unfolding select
other_articles-map id change [] h = refl
other_articles-map id change (x ∷ xs) h = elim (Bool-cases (x.id == id)) [
  | inl its ↦
      let its' : ((change x).id == id) ≡ true = rw (h x) its in
      ground (arith, its', other_articles-map id change xs h)
  | inr other ↦ ground (arith, other_articles-map id change xs h)
]

pub update_article-IsUntouched :
    (id : Text) (names : List Text) (change : Article → Article) (d : Db)
    → ((a : Article) → (change a).id ≡ a.id)
    → IsUntouched id names d (update_article id change d)
unfolding update_article
update_article-IsUntouched id names change d h = record {
  grown_tags = unchanged_tags names d.tags;
  same_users = refl;
  same_favorites = refl;
  same_comments = refl;
  same_follows = refl;
  same_attachments = refl;
  same_outbox = refl;
  same_articles = other_articles-map id change d.articles h;
  same_links = refl;
}

-- Only the tags and the links of this article are given anew.
tables-IsUntouched :
    (id : Text) (names : List Text) (d : Db) (tags : List Tag) (links : List ArticleTag)
    → IsGrown names d.tags tags
    → select (λ l. not (ArticleTag.article_id l == id)) links ≡ other_links id d
    → IsUntouched id names d (record d { tags = tags; article_tags = links })
tables-IsUntouched id names d tags links g h = record {
  grown_tags = g;
  same_users = refl;
  same_favorites = refl;
  same_comments = refl;
  same_follows = refl;
  same_attachments = refl;
  same_outbox = refl;
  same_articles = refl;
  same_links = h;
}

insert_tags-IsGrown :
    (names : List Text) (new_id : Text → Text) (ns : List Text) (tags : List Tag)
    → all (contains names) ns ≡ true
    → IsGrown names tags (insert_tags new_id ns tags)
unfolding insert_tags
insert_tags-IsGrown names new_id [] tags h = unchanged_tags names tags
insert_tags-IsGrown names new_id (n ∷ ns) tags h =
    let here : contains names n ≡ true = ground (arith, h) in
    let there : all (contains names) ns ≡ true = ground (arith, h) in
    elim (Bool-cases (any (λ t. Tag.name t == n) tags)) [
      | inl old ↦ rw old (insert_tags-IsGrown names new_id ns tags there)
      | inr fresh ↦
          let tag : Tag = record { id = new_id n; name = n } in
          rw fresh (
            IsGrown-trans names tags (tags ++ tag ∷ []) (insert_tags new_id ns (tags ++ tag ∷ []))
              (tag ∷ [], refl, rw here refl)
              (insert_tags-IsGrown names new_id ns (tags ++ tag ∷ []) there))
    ]

all_contained :
    (names ns : List Text)
    → ((x : Text) → contains ns x ≡ true → contains names x ≡ true)
    → all (contains names) ns ≡ true
all_contained names [] h = refl
all_contained names (n ∷ ns) h =
    let same : (n == n) ≡ true = ==_refl n in
    let first : contains names n ≡ true = h n (rw same refl) in
    rw first (all_contained names ns (λ x k. h x (ground (arith, k))))

contains-all : (names : List Text) → all (contains names) names ≡ true
contains-all names = all_contained names names (λ x h. h)

pub ensured-IsUntouched :
    (id : Text) (new_id : Text → Text) (names : List Text) (d : Db)
    → IsUntouched id names d (ensured new_id names d)
unfolding ensure_tags
ensured-IsUntouched id new_id [] d = IsUntouched-refl id [] d
ensured-IsUntouched id new_id (n ∷ ns) d =
    tables-IsUntouched id (n ∷ ns) d _ d.article_tags
      (insert_tags-IsGrown (n ∷ ns) new_id (n ∷ ns) d.tags (contains-all (n ∷ ns))) refl

select_twice : (p : ArticleTag → Bool) (xs : List ArticleTag) → select p (select p xs) ≡ select p xs
unfolding select
select_twice p [] = refl
select_twice p (x ∷ xs) = ground (arith, select_twice p xs)

other_links-tag_links :
    (id : Text) (stored : List Tag) (position : _) (names : List Text)
    → select (λ l. not (ArticleTag.article_id l == id)) (tag_links id stored position names) ≡ []
unfolding select tag_links
other_links-tag_links id stored position [] = refl
other_links-tag_links id stored position (n ∷ names) =
    rw (==_refl id) (other_links-tag_links id stored _ names)

pub linked-IsUntouched :
    (id : Text) (names : List Text) (stored : List Tag) (d : Db)
    → IsUntouched id names d (linked id names stored (drop_links id d))
unfolding add_links drop_links
linked-IsUntouched id [] stored d =
    tables-IsUntouched id [] d d.tags _ (unchanged_tags [] d.tags) (select_twice _ d.article_tags)
linked-IsUntouched id (n ∷ ns) stored d =
    tables-IsUntouched id (n ∷ ns) d d.tags _ (unchanged_tags (n ∷ ns) d.tags) (
      select-append _ _ _
      ∙ ap₂ ◌++◌ (select_twice _ d.article_tags) (other_links-tag_links id stored 0 (n ∷ ns))
      ∙ append-nil _)
