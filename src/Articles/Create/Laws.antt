-- ===== src/Articles/Create/Laws.antt =====
-- What ArticleCreateService.create guarantees.
use nest_js_tutorial.Base.{Option, Option-cases}
use nest_js_tutorial.Base.{
  ◌≡◌, refl, sym, ap, ◌∙◌, subst, Bool, true, false, none, some, Text, ◌==◌, List, [], ◌∷◌, ◌++◌,
  any, select, if◌then◌else◌, Bool-cases, inl, inr,
}
use mathlib.Core.Path.{ap₂, subst₂}
use nest_js_tutorial.Runtime.{Exception, returned, thrown}
use nest_js_tutorial.Runtime.Inversion.{after-returned}
use nest_js_tutorial.Database.{Db, User, Article, ArticleTag, Orm, World}
use nest_js_tutorial.Database.Reliable.{IsReliable}
use nest_js_tutorial.Database.Statements.{user_by_username}
use nest_js_tutorial.Database.Transactions.{guarded-thrown, guarded-returned}
use nest_js_tutorial.Database.Steps.{require-step, execute-step}
use nest_js_tutorial.Serializers.{ArticleDetail, serialize_article_detail}
use nest_js_tutorial.Articles.Slug.{Unicode, create_article_slug}
use nest_js_tutorial.Articles.Tags.{
  unique_article_tag_names, ordered_tag_names, persist_article_tags,
}
use nest_js_tutorial.Articles.Tags.Order.{HasUniqueTagIds}
use nest_js_tutorial.Articles.Tags.Replace.{persist_article_tags-ordered}
use nest_js_tutorial.Articles.Create.{
  NewArticleDto, Generated, insert_article, is_slug_conflict, create_error, or_no_tags,
  create_in_transaction, create,
}

-- The three errors that the service declares.
abbrev pub is_create_error : Exception → Bool
is_create_error Exception.article_author_not_found = true
is_create_error Exception.article_slug_conflict = true
is_create_error Exception.article_create_persistence = true
is_create_error _ = false

or_persistence :
    (b : Bool)
    → is_create_error
        (if b then Exception.article_slug_conflict else Exception.article_create_persistence)
      ≡ true
or_persistence true = refl
or_persistence false = refl

create_error-declared : (e : Exception) → is_create_error (create_error e) ≡ true
unfolding create_error
create_error-declared Exception.article_author_not_found = refl
create_error-declared e = or_persistence (is_slug_conflict e)

-- The row that a request makes.
abbrev pub new_article : Unicode → Generated → User → NewArticleDto → Article
new_article unicode new author request = record {
  id = new.article_id;
  slug = create_article_slug unicode request.title new.slug_id;
  title = request.title;
  description = request.description;
  body = request.body;
  author_id = author.id;
  created_at = new.now;
  updated_at = new.now;
}

abbrev pub has_slug : Text → Db → Bool
has_slug slug d = any (λ a. Article.slug a == slug) d.articles

abbrev pub with_row : Article → Db → Db
with_row row d = record d { articles = d.articles ++ row ∷ [] }

insert_returned :
    (row : Article) (d d' : Db) (a : Article)
    → insert_article row d ≡ (returned a, d')
    → (has_slug row.slug d ≡ false) × (a ≡ row) × (d' ≡ with_row row d)
unfolding insert_article
insert_returned row d d' a h = elim (Bool-cases (has_slug row.slug d)) [
  | inl taken ↦ let h = rw taken at h in cc
  | inr free ↦ let h = rw free at h in (free, cc, cc)
]

-- Why a creation is refused, by its author and by whether its slug is taken.
abbrev pub create_refusal : Option User → Bool → Option Exception
create_refusal none taken = some Exception.article_author_not_found
create_refusal (some author) true = some Exception.article_slug_conflict
create_refusal (some author) false = none

module _ (orm : Orm) (unicode : Unicode) (new : Generated) where
  -- If a creation throws, no row has changed, and the error is one of the three that the service
  -- declares.
  pub create_atomic :
      (username : Text) (request : NewArticleDto) (w w' : World orm.Env) (e : Exception)
      → create orm unicode new username request w ≡ (thrown e, w')
      → (w'.db ≡ w.db) × (is_create_error e ≡ true)
  unfolding create
  create_atomic username request w w' e h =
      let p =
        guarded-thrown orm (create_in_transaction orm unicode new username request) create_error w
          h in
      (p.0, rw (p.1.1) (create_error-declared p.1.0))

  -- A driver that does not fail by itself reports a slug that is taken as a slug conflict, and a user
  -- that is not there as a missing author.
  pub create_refused :
      (reliable : IsReliable orm) (username : Text) (request : NewArticleDto) (w : World orm.Env)
      (e : Exception)
      → create_refusal
          (user_by_username username w.db)
          (has_slug (create_article_slug unicode request.title new.slug_id) w.db)
        ≡ some e
      → (create orm unicode new username request w).0 ≡ thrown e
  unfolding create create_in_transaction insert_article create_error is_slug_conflict ◌==◌
  create_refused reliable username request w e h =
      elim (Option-cases (user_by_username username w.db)) [
        | inl missing ↦
            let error : Exception.article_author_not_found ≡ e = cc in
            simp (reliable.transaction_eq, reliable.execute_eq, missing) (ap thrown error)
        | inr (author, found) ↦
            elim (Bool-cases
              (has_slug (create_article_slug unicode request.title new.slug_id) w.db)) [
                | inl taken ↦
                    let error : Exception.article_slug_conflict ≡ e = cc in
                    simp (reliable.transaction_eq, reliable.execute_eq, found, taken)
                      (ap thrown error)
                | inr free ↦ cc
              ]
      ]

-- The effect of a creation on the tables and on the response.
pub record IsCreated (unicode : Unicode) (new : Generated) (username : Text)
    (request : NewArticleDto) (d d' : Db) (r : ArticleDetail) : Type 0 where
  pub author : User
  pub found : user_by_username username d ≡ some author
  -- The slug was free, and the row is the one that the request and the generated values make.
  pub free : has_slug (create_article_slug unicode request.title new.slug_id) d ≡ false
  -- The row is added, and only the tables of tags have changed besides.
  pub tables : d' ≡ record d {
    articles = d.articles ++ new_article unicode new author request ∷ [];
    tags = d'.tags;
    article_tags = d'.article_tags;
  }
  -- The tags are read back in order, without repetitions.
  pub tags :
      ordered_tag_names new.article_id d' ≡ unique_article_tag_names (or_no_tags request.tag_list)
  pub response :
      r
      ≡ serialize_article_detail (new_article unicode new author request) author (record {
        tags = unique_article_tag_names (or_no_tags request.tag_list);
        favorited = false;
        favorites_count = 0;
        author_following = false;
      })

abbrev detail_of_new : Article → User → List Text → ArticleDetail
detail_of_new article author tags =
    serialize_article_detail article author
      (record { tags = tags; favorited = false; favorites_count = 0; author_following = false })

-- The parts of a creation, over the tables after each.
assemble :
    (unicode : Unicode) (new : Generated) (username : Text) (request : NewArticleDto) (d d₂ d₃ : Db)
    (r : ArticleDetail) (author : User)
    → user_by_username username d ≡ some author
    → has_slug (create_article_slug unicode request.title new.slug_id) d ≡ false
    → d₂ ≡ with_row (new_article unicode new author request) d
    → d₃ ≡ record d₂ { tags = d₃.tags; article_tags = d₃.article_tags }
    → ordered_tag_names new.article_id d₃ ≡ unique_article_tag_names (or_no_tags request.tag_list)
    → r
      ≡ detail_of_new
          (new_article unicode new author request)
          author
          (unique_article_tag_names (or_no_tags request.tag_list))
    → IsCreated unicode new username request d d₃ r
assemble unicode new username request d d₂ d₃ r author found free added tables ordered shown =
    record {
      author = author;
      found = found;
      free = free;
      tables =
          tables
          ∙ ap (λ (x : Db). record x { tags = d₃.tags; article_tags = d₃.article_tags }) added;
      tags = ordered;
      response = shown;
    }

module _ (orm : Orm) (unicode : Unicode) (new : Generated) where
  create_in_transaction-returned :
      (username : Text) (request : NewArticleDto) (w w' : World orm.Env) (r : ArticleDetail)
      → create_in_transaction orm unicode new username request w ≡ (returned r, w')
      → select (λ l. ArticleTag.article_id l == new.article_id) w.db.article_tags ≡ []
      → HasUniqueTagIds w'.db.tags
      → IsCreated unicode new username request w.db w'.db r
  unfolding create_in_transaction
  create_in_transaction-returned username request w w' r h no_links unique =
      let (author, t, found, s₁, h) = require-step orm _ w (user_by_username username) _ h in
      let row = new_article unicode new author request in
      let (article, t₂, run, h) = execute-step orm _ t (insert_article row) h in
      let (free, same, s₂) = insert_returned row t.db t₂.db article run in
      let names = or_no_tags request.tag_list in
      let (tags, t₃, run, h) =
        after-returned (persist_article_tags orm new.tag_id article.id names t₂) _ h in
      let run =
        subst
          (λ (a : Article). persist_article_tags orm new.tag_id a.id names t₂ ≡ (returned tags, t₃))
          same run in
      let db : t₂.db ≡ with_row row w.db = s₂ ∙ ap (with_row row) s₁ in
      let same_world : t₃ ≡ w' = cc in
      let unique₃ =
        subst (λ (x : World orm.Env). HasUniqueTagIds x.db.tags) (sym same_world) unique in
      let links : t₂.db.article_tags ≡ w.db.article_tags = ap Db.article_tags db in
      let (u, ordered, tables) =
        persist_article_tags-ordered orm new.tag_id new.article_id names t₂ t₃ tags run
          (ap (select (λ l. ArticleTag.article_id l == new.article_id)) links ∙ no_links) unique₃ in
      let shown : detail_of_new article author tags ≡ r = cc in
      subst (λ (x : World orm.Env). IsCreated unicode new username request w.db x.db r) same_world
        (assemble unicode new username request w.db t₂.db t₃.db r author found
          (ap (has_slug row.slug) (sym s₁) ∙ free) db tables (ordered)
          (sym shown ∙ ap₂ (λ a t. detail_of_new a author t) same u))

  -- Whatever the driver does, if a creation returns, no link refers to the new id, and the resulting
  -- table of tags respects its primary key, then the author is there, the slug was free, exactly the
  -- new row has been added to the articles, its tags are read back as requested without repetitions,
  -- and the response shows them.
  pub create_returned :
      (username : Text) (request : NewArticleDto) (w w' : World orm.Env) (r : ArticleDetail)
      → create orm unicode new username request w ≡ (returned r, w')
      → select (λ l. ArticleTag.article_id l == new.article_id) w.db.article_tags ≡ []
      → HasUniqueTagIds w'.db.tags
      → IsCreated unicode new username request w.db w'.db r
  unfolding create
  create_returned username request w w' r h no_links unique =
      let (v, v', run, start, end) =
        guarded-returned orm (create_in_transaction orm unicode new username request) create_error w
          h in
      subst₂ (λ d d'. IsCreated unicode new username request d d' r) start end
        (create_in_transaction-returned username request v v' r run
          (ap (λ (d : Db). select (λ l. ArticleTag.article_id l == new.article_id) d.article_tags)
              start
            ∙ no_links)
          (subst (λ (d : Db). HasUniqueTagIds d.tags) (sym end) unique))
