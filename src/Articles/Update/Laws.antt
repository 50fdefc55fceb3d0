-- ===== src/Articles/Update/Laws.antt =====
-- What ArticleUpdateService.update guarantees.
use nest_js_tutorial.Base.{
  ℕ, ◌≡◌, sym, ap, ◌∙◌, subst, true, not, not-false, Option, some, Text, ◌==◌, Bool-cases, inl, inr,
}
use mathlib.Core.Path.{subst₂}
use nest_js_tutorial.Runtime.{Exception, returned, thrown}
use nest_js_tutorial.Runtime.Inversion.{after-returned}
use nest_js_tutorial.Database.{Db, User, Article, Orm, World}
use nest_js_tutorial.Database.Statements.{user_by_username, article_by_slug}
use nest_js_tutorial.Database.Transactions.{guarded-thrown, guarded-returned}
use nest_js_tutorial.Database.Steps.{require-step, throw_if-step}
use nest_js_tutorial.Serializers.{ArticleDetail}
use nest_js_tutorial.Articles.Tags.{ordered_tag_names}
use nest_js_tutorial.Articles.Tags.Order.{HasUniqueTagIds}
use nest_js_tutorial.Articles.Read.{article_and_author}
use nest_js_tutorial.Articles.Read.Laws.{IsViewer, detail_for, get_by_slug_returned}
use nest_js_tutorial.Articles.Update.{
  ArticleUpdateDto, scalar_changed, apply_scalar_changes, is_expected_update_error, update_error,
  save_scalars, update_tags, update_in_transaction, update,
}
use nest_js_tutorial.Articles.Update.Frame.{IsUntouched, IsUntouched-trans}
use nest_js_tutorial.Articles.Update.Steps.{
  updated_tags, requested_names, save_returned, update_tags-returned, Holds, after_id,
}

update_error_expected : (e : Exception) → is_expected_update_error (update_error e) ≡ true
unfolding is_expected_update_error
update_error_expected e = elim (Bool-cases (is_expected_update_error e)) [
  | inl same ↦ rw same same
  | inr other ↦ rw other
]

-- The effect of an update of `article` by the request, on the tables and on the response.
pub record IsUpdated (slug username : Text) (now : ℕ) (request : ArticleUpdateDto)
    (article : Article) (d d' : Db) (r : ArticleDetail) : Type 0 where
  -- Nothing but this article and its links to tags has changed, and the tags may have grown by the
  -- requested names.
  pub untouched : IsUntouched article.id (requested_names request.tag_list) d d'
  -- The fields of the request are stored, and every other column of the row is as before, but for the
  -- time of the last change.
  pub scalars : Holds slug now (apply_scalar_changes article request) d'
  -- So are the tags of the request, in order and without repetitions; without any, the old ones.
  pub tags :
      ordered_tag_names article.id d'
      ≡ updated_tags request.tag_list (ordered_tag_names article.id d)
  -- The response is the stored article as the author sees it.
  pub response :
      (shown : Article × User) × (viewer : Option User) × (article_and_author slug d' ≡ some shown)
      × IsViewer (some username) viewer d'
      × (r ≡ detail_for shown viewer d')

abbrev pub IsUpdatedBy : Text → Text → ℕ → ArticleUpdateDto → Db → Db → ArticleDetail → Type 0
IsUpdatedBy slug username now request d d' r =
    (user : User) × (article : Article) × (user_by_username username d ≡ some user)
    × (article_by_slug slug d ≡ some article)
    × (article.author_id == user.id ≡ true)
    × IsUpdated slug username now request article d d' r

-- The parts of an update, over the tables after each.
assemble :
    (slug username : Text) (now : ℕ) (request : ArticleUpdateDto) (article : Article)
    (d d₂ d₃ d₄ d' : Db) (r : ArticleDetail) (shown : Article × User) (viewer : Option User)
    → d₂ ≡ d
    → IsUntouched article.id (requested_names request.tag_list) d₂ d₃
    → IsUntouched article.id (requested_names request.tag_list) d₃ d₄
    → Holds slug now (apply_scalar_changes article request) d₄
    → ordered_tag_names article.id d₃ ≡ ordered_tag_names article.id d₂
    → (HasUniqueTagIds d₄.tags
        → ordered_tag_names article.id d₄
          ≡ updated_tags request.tag_list (ordered_tag_names article.id d₃))
    → HasUniqueTagIds d'.tags
    → article_and_author slug d₄ ≡ some shown
    → IsViewer (some username) viewer d₄
    → r ≡ detail_for shown viewer d₄
    → d' ≡ d₄
    → IsUpdated slug username now request article d d' r
assemble slug username now request article d d₂ d₃ d₄ d' r shown viewer same u₁ u₂ held kept tags
      unique seen viewed result end =
    subst (λ x. IsUpdated slug username now request article d x r) (sym end)
      (record {
        untouched =
            IsUntouched-trans article.id (requested_names request.tag_list) d d₃ d₄
              (subst (λ x. IsUntouched article.id (requested_names request.tag_list) x d₃) same u₁)
              u₂;
        scalars = held;
        tags =
            tags (subst (λ x. HasUniqueTagIds (Db.tags x)) end unique)
            ∙ ap (updated_tags request.tag_list) (kept ∙ ap (ordered_tag_names article.id) same);
        response = (shown, viewer, seen, viewed, result);
      })

module _ (orm : Orm) (now : ℕ) (new_id : Text → Text) where
  update_in_transaction-returned :
      (slug username : Text) (request : ArticleUpdateDto) (w w' : World orm.Env) (r : ArticleDetail)
      → update_in_transaction orm now new_id slug username request w ≡ (returned r, w')
      → HasUniqueTagIds w'.db.tags
      → (user : User) × (article : Article) × (user_by_username username w.db ≡ some user)
        × (article_by_slug slug w.db ≡ some article)
        × (article.author_id == user.id ≡ true)
        × IsUpdated slug username now request article w.db w'.db r
  unfolding update_in_transaction
  update_in_transaction-returned slug username request w w' r h unique =
      let (user, t, found_user, s₁, h) = require-step orm _ w (user_by_username username) _ h in
      let (article, t₂, found_article, s₂, h) = require-step orm _ t (article_by_slug slug) _ h in
      let (mine, h) = throw_if-step orm _ t₂ (not (article.author_id == user.id)) _ h in
      let after = apply_scalar_changes article request in
      let changed = scalar_changed article request in
      let (_, t₃, run, h) = after-returned (save_scalars orm now new_id changed after t₂) _ h in
      let same = s₂ ∙ s₁ in
      let found : article_by_slug slug w.db ≡ some article =
        ap (article_by_slug slug) (sym s₁) ∙ found_article in
      let (u₁, held, kept) =
        save_returned orm now new_id slug (requested_names request.tag_list) article request t₂ t₃
          (ap (article_by_slug slug) s₂ ∙ found_article) run in
      let (_, t₄, run, h) =
        after-returned (update_tags orm now new_id changed article.id request.tag_list t₃) _ h in
      let (u₂, held, tags) =
        update_tags-returned orm now new_id slug article.id after changed request.tag_list t₃ t₄ run
          held (after_id article request) in
      let (shown, viewer, seen, is_viewer, result, s₅) =
        get_by_slug_returned orm slug (some username) t₄ w' r h in
      (
        user,
        article,
        found_user,
        found,
        not-false _ mine,
        assemble slug username now request article w.db t₂.db t₃.db t₄.db w'.db r shown viewer same
            u₁ u₂ held kept tags unique seen is_viewer result s₅,
      )

  -- Whatever the driver does, if an update returns, and the resulting table of tags respects its
  -- primary key, then the user is there and is the author of the article, whose fields and tags are
  -- those of the request where it has them and as before where it has none; every other column of its
  -- row is as before, but for the time of the last change, which is the old one or the time of the
  -- update; the table of the tags keeps its rows and has grown by requested names only; no other row of
  -- any table has changed, and the response shows the article as it is stored.
  pub update_returned :
      (slug username : Text) (request : ArticleUpdateDto) (w w' : World orm.Env) (r : ArticleDetail)
      → update orm now new_id slug username request w ≡ (returned r, w')
      → HasUniqueTagIds w'.db.tags
      → IsUpdatedBy slug username now request w.db w'.db r
  unfolding update
  update_returned slug username request w w' r h unique =
      let (v, v', run, start, end) =
        guarded-returned orm (update_in_transaction orm now new_id slug username request)
          update_error w h in
      let (user, article, a, b, c, done) =
        update_in_transaction-returned slug username request v v' r run
          (subst (λ d. HasUniqueTagIds (Db.tags d)) (sym end) unique) in
      (
        user,
        article,
        ap (user_by_username username) (sym start) ∙ a,
        ap (article_by_slug slug) (sym start) ∙ b,
        c,
        subst₂ (λ d d'. IsUpdated slug username now request article d d' r) start end done,
      )

  -- If an update throws, no row has changed, and the error is one of those that the service declares:
  -- every other failure is reported as a failed request.
  pub update_atomic :
      (slug username : Text) (request : ArticleUpdateDto) (w w' : World orm.Env) (e : Exception)
      → update orm now new_id slug username request w ≡ (thrown e, w')
      → (w'.db ≡ w.db) × (is_expected_update_error e ≡ true)
  unfolding update
  update_atomic slug username request w w' e h =
      let p =
        guarded-thrown orm (update_in_transaction orm now new_id slug username request) update_error
          w h in
      (p.0, rw (p.1.1) (update_error_expected p.1.0))
