-- ===== src/Articles/Update.antt =====
-- ArticleUpdateService (articles/article.service.ts).
pub mod Frame
pub mod Steps
pub mod Laws
use nest_js_tutorial.Base.{
  ℕ, Bool, true, false, not, ◌&&◌, ◌||◌, Option, none, some, Text, ◌==◌, List, [], ◌∷◌, map,
  if◌then◌else◌,
}
use nest_js_tutorial.Runtime.{Exception, M, pure, throw, throw_if, ◌>>=◌, ◌>>◌}
use nest_js_tutorial.Database.{Db, Article, Orm, World, command, query}
use nest_js_tutorial.Database.Statements.{user_by_username, article_by_slug, require}
use nest_js_tutorial.Database.Transactions.{guarded}
use nest_js_tutorial.Serializers.{ArticleDetail}
use nest_js_tutorial.Articles.Tags.{
  unique_article_tag_names, ordered_tag_names, replace_article_tags,
}
use nest_js_tutorial.Articles.Read.{get_by_slug}

-- ArticleUpdateDto (common/dto/article.dto.ts); `none` is `undefined`.
pub record ArticleUpdateDto : Type 0 where
  pub title : Option Text
  pub description : Option Text
  pub body : Option Text
  pub tag_list : Option (List Text)

-- `requested !== undefined && current !== requested`
abbrev pub differs : Text → Option Text → Bool
differs current none = false
differs current (some requested) = not (current == requested)

abbrev pub or_current : Option Text → Text → Text
or_current none current = current
or_current (some requested) current = requested

-- applyScalarChanges: whether a field has changed, and the article after it.
unfoldable pub scalar_changed : Article → ArticleUpdateDto → Bool
scalar_changed article request =
    differs article.title request.title
    || differs article.description request.description
    || differs article.body request.body

unfoldable pub apply_scalar_changes : Article → ArticleUpdateDto → Article
apply_scalar_changes article request = record article {
  title = or_current request.title article.title;
  description = or_current request.description article.description;
  body = or_current request.body article.body;
}

-- hasSameOrderedTagNames
unfoldable pub has_same_ordered_tag_names : List Text → List Text → Bool
has_same_ordered_tag_names [] [] = true
has_same_ordered_tag_names (c ∷ cs) (r ∷ rs) = c == r && has_same_ordered_tag_names cs rs
has_same_ordered_tag_names [] (r ∷ rs) = false
has_same_ordered_tag_names (c ∷ cs) [] = false

-- An UPDATE of the article of this id.
unfoldable pub update_article : Text → (Article → Article) → Db → Db
update_article id change d = record d {
  articles = map (λ a. if Article.id a == id then change a else a) d.articles;
}

-- `save(article)`: the scalar fields are written, and the column of UpdateDateColumn is set.
abbrev pub saved : ℕ → Article → Article → Article
saved now article row = record row {
  title = article.title;
  description = article.description;
  body = article.body;
  updated_at = now;
}

-- isExpectedUpdateError
unfoldable pub is_expected_update_error : Exception → Bool
is_expected_update_error Exception.article_update_user_not_found = true
is_expected_update_error Exception.article_update_article_not_found = true
is_expected_update_error Exception.article_update_forbidden = true
is_expected_update_error Exception.article_update_persistence = true
is_expected_update_error _ = false

-- The `catch` block of `update`.
abbrev pub update_error : Exception → Exception
update_error e = if is_expected_update_error e then e else Exception.article_update_persistence

-- The database gives the time and the ids of new tags.
module _ (orm : Orm) (now : ℕ) (new_id : Text → Text) where
  -- `if (scalarChanged) await articleRepository.save(article);`
  unfoldable pub save_scalars : Bool → Article → M (World orm.Env) (Unit {0})
  save_scalars false article = pure tt
  save_scalars true article = orm.execute (command (update_article article.id (saved now article)))

  -- `if (!scalarChanged) await this.touchUpdatedAt(article.id, manager);`
  unfoldable pub touch_unless : Bool → Text → M (World orm.Env) (Unit {0})
  touch_unless true article_id = pure tt
  touch_unless false article_id =
      orm.execute (command (update_article article_id (λ row. record row { updated_at = now })))

  -- `if (tagsChanged) …`
  unfoldable pub replace_if : Bool → Bool → Text → List Text → M (World orm.Env) (Unit {0})
  unfolding touch_unless replace_article_tags
  replace_if false changed article_id names = pure tt
  replace_if true changed article_id names = do
    touch_unless changed article_id
    replaced ← replace_article_tags orm new_id article_id names
    pure tt

  -- `if (request.tagList !== undefined) …`
  unfoldable pub update_tags : Bool → Text → Option (List Text) → M (World orm.Env) (Unit {0})
  unfolding replace_if has_same_ordered_tag_names
  update_tags changed article_id none = pure tt
  update_tags changed article_id (some tag_list) =
      let requested = unique_article_tag_names tag_list in
      do
        existing ← orm.execute (query (ordered_tag_names article_id))
        replace_if (not (has_same_ordered_tag_names existing requested)) changed article_id
            requested

  unfoldable pub update_in_transaction :
      Text → Text → ArticleUpdateDto → M (World orm.Env) ArticleDetail
  unfolding save_scalars update_tags get_by_slug
  update_in_transaction slug username request = do
    author ← require orm (user_by_username username) Exception.article_update_user_not_found
    article ← require orm (article_by_slug slug) Exception.article_update_article_not_found
    throw_if (not (article.author_id == author.id)) Exception.article_update_forbidden
    save_scalars (scalar_changed article request) (apply_scalar_changes article request)
    update_tags (scalar_changed article request) article.id request.tag_list
    get_by_slug orm slug (some username)

  -- ArticleUpdateService.update
  unfoldable pub update : Text → Text → ArticleUpdateDto → M (World orm.Env) ArticleDetail
  unfolding update_in_transaction is_expected_update_error
  update slug username request =
      guarded orm (update_in_transaction slug username request) update_error
