-- ===== src/Comments/Laws.antt =====
-- What CommentService guarantees.
use nest_js_tutorial.Base.{
  ℕ, ◌≡◌, ◌≤◌, refl, sym, ap, ◌∙◌, subst, Bool, true, false, not, ◌&&◌, Option, none, some, Text,
  ◌==◌, ==_refl, eqb, List, [], ◌∷◌, ◌++◌, arith, select, count, find-count, if◌then◌else◌,
  Bool-cases, Option-cases, not-false, inl, inr, ℤ, trim,
}
use nest_js_tutorial.Runtime.{Exception, Outcome, returned, thrown, Value, as_http}
use nest_js_tutorial.Database.{Db, User, Article, Comment, Orm, World}
use nest_js_tutorial.Database.Reliable.{IsReliable}
use nest_js_tutorial.Database.Statements.{user_by_username, article_by_slug}
use nest_js_tutorial.Database.Transactions.{guarded-thrown, guarded-returned}
use nest_js_tutorial.Database.Steps.{require-step, execute-step}
use nest_js_tutorial.Serializers.{SerializedComment, serialize_comment}
use nest_js_tutorial.Comments.{
  rethrow_http, rethrow_comment_error, comment_not_found, comment_forbidden, insert_comment,
  delete_comment, comment_by_id, is_comment, stored_id, create_in_transaction, create,
  delete_stored, delete_in_transaction, delete,
}

-- Whether the error has a status and a response of its own.
abbrev has_response : Option (ℕ × Value) → Bool
has_response none = false
has_response (some response) = true

abbrev pub is_http : Exception → Bool
is_http e = has_response (as_http e)

rethrow-http :
    (o : Option (ℕ × Value)) (e : Exception) → as_http e ≡ o → is_http (rethrow_http o e) ≡ true
rethrow-http none e h = refl
rethrow-http (some response) e h = ap has_response h

rethrow_comment_error-http : (e : Exception) → is_http (rethrow_comment_error e) ≡ true
unfolding rethrow_comment_error
rethrow_comment_error-http e = rethrow-http (as_http e) e refl

-- One comment has been added, by this user to this article, with its text trimmed.
abbrev pub IsCommented : ℕ → ℕ → Text → Text → Text → Db → Db → SerializedComment → Type 0
IsCommented new_id now slug username body d d' r =
    (user : User) × (article : Article) × (user_by_username username d ≡ some user)
    × (article_by_slug slug d ≡ some article)
    × let comment : Comment = record {
      id = new_id;
      article_id = article.id;
      author_id = user.id;
      body = trim body;
      created_at = now;
      updated_at = now;
    } in
      (d' ≡ record d { comments = d.comments ++ comment ∷ [] })
      × (r ≡ serialize_comment comment user false)

-- The specification of a deletion: whose comment it is, once all is found.
abbrev pub decide_author : Article → User → ℕ → Comment → Db → Outcome (Unit {0}) × Db
decide_author article user id comment d =
    if comment.author_id == user.id
    then (returned tt, (delete_comment article.id user.id id d).1)
    else (thrown comment_forbidden, d)

abbrev pub decide_found : Article → User → ℕ → Option Comment → Db → Outcome (Unit {0}) × Db
decide_found article user id none d = (thrown comment_not_found, d)
decide_found article user id (some comment) d = decide_author article user id comment d

abbrev pub decide_comment : Article → User → Option ℕ → Db → Outcome (Unit {0}) × Db
decide_comment article user none d = (thrown comment_not_found, d)
decide_comment article user (some id) d =
    decide_found article user id (comment_by_id article.id id d) d

abbrev pub delete_decision : Option Article → Option User → Option ℕ → Db → Outcome (Unit {0}) × Db
delete_decision none user id d = (thrown Exception.comment_article_not_found, d)
delete_decision (some article) none id d = (thrown Exception.comment_user_not_found, d)
delete_decision (some article) (some user) id d = decide_comment article user id d

-- The primary key of the comments.
abbrev pub HasUniqueCommentIds : Db → Type 0
HasUniqueCommentIds d = (id : ℕ) → count (λ c. eqb (Comment.id c) id) d.comments ≤ 1

count-weaken :
    (p q : Comment → Bool) (cs : List Comment)
    → ((c : Comment) → p c ≡ true → q c ≡ true)
    → count p cs ≤ count q cs
unfolding count
count-weaken p q [] h = ground arith
count-weaken p q (c ∷ cs) h = ground (arith, h c, count-weaken p q cs h)

found-is_comment :
    (article_id author_id : Text) (id : ℕ) (c : Comment) (d : Db)
    → comment_by_id article_id id d ≡ some c
    → c.author_id == author_id ≡ true
    → is_comment article_id author_id id c ≡ true
unfolding comment_by_id
found-is_comment article_id author_id id c d h k = ground (
  arith,
  nest_js_tutorial.Base.find-some (λ c. Comment.article_id c == article_id && eqb (Comment.id c) id)
      d.comments h,
)

count_found :
    (d : Db) (article_id author_id : Text) (id : ℕ) (c : Comment)
    → HasUniqueCommentIds d
    → comment_by_id article_id id d ≡ some c
    → c.author_id == author_id ≡ true
    → count (is_comment article_id author_id id) d.comments ≡ 1
unfolding comment_by_id
count_found d article_id author_id id c unique h k = omega (
  arith,
  unique id,
  find-count _ (is_comment article_id author_id id) d.comments h
      (found-is_comment article_id author_id id c d h k),
  count-weaken (is_comment article_id author_id id) (λ c. eqb (Comment.id c) id) d.comments
      (λ c h. ground arith),
)

module _ (orm : Orm) where
  -- Whatever the driver does, if a comment is created then the user and the article are there, exactly
  -- one row has been added, with the trimmed text, and the response shows it.
  pub comment_created :
      (new_id now : ℕ) (slug username body : Text) (w w' : World orm.Env) (r : SerializedComment)
      → create orm new_id now slug username body w ≡ (returned r, w')
      → IsCommented new_id now slug username body w.db w'.db r
  unfolding create create_in_transaction insert_comment
  comment_created new_id now slug username body w w' r h =
      let (v, v', run, start, end) =
        guarded-returned orm (create_in_transaction orm new_id now slug username body)
          rethrow_comment_error w h in
      let (user, t, found_user, s₁, run) = require-step orm _ v (user_by_username username) _ run in
      let (article, t₂, found_article, s₂, run) =
        require-step orm _ t (article_by_slug slug) _ run in
      let comment : Comment = record {
        id = new_id;
        article_id = article.id;
        author_id = user.id;
        body = trim body;
        created_at = now;
        updated_at = now;
      } in
      let (c, t₃, saved, run) = execute-step orm _ t₂ (insert_comment comment) run in
      let same : c ≡ comment = cc in
      let ends : v' ≡ t₃ = cc in
      let shows : r ≡ serialize_comment c user false = cc in
      let db = s₂ ∙ s₁ ∙ start in
      (
        user,
        article,
        ap (user_by_username username) (sym start) ∙ found_user,
        ap (article_by_slug slug) (sym (s₁ ∙ start)) ∙ found_article,
        (
          sym end
              ∙ ap World.db ends
              ∙ sym (ap (λ o. o.1) saved)
              ∙ ap (λ d. (insert_comment comment d).1) db,
          shows ∙ ap (λ x. serialize_comment x user false) same,
        ),
      )

  -- If the creation of a comment throws, no row has changed, and the error has a status and a body.
  pub comment_create_atomic :
      (new_id now : ℕ) (slug username body : Text) (w w' : World orm.Env) (e : Exception)
      → create orm new_id now slug username body w ≡ (thrown e, w')
      → (w'.db ≡ w.db) × (is_http e ≡ true)
  unfolding create
  comment_create_atomic new_id now slug username body w w' e h =
      let p =
        guarded-thrown orm (create_in_transaction orm new_id now slug username body)
          rethrow_comment_error w h in
      (p.0, rw (p.1.1) (rethrow_comment_error-http p.1.0))

  -- With a driver that does not fail by itself and unique comment ids, a deletion ends exactly as the
  -- decision says: an unknown article or user, an id that the column cannot hold, an unknown comment
  -- and the comment of another user are refused and nothing changes; the user's own comment is deleted.
  pub comment_delete_reliable :
      (reliable : IsReliable orm) (slug : Text) (comment_id : ℤ) (username : Text)
      (w : World orm.Env)
      → HasUniqueCommentIds w.db
      → let (r, w') = delete orm slug comment_id username w in
        (r, w'.db)
        ≡ delete_decision
            (article_by_slug slug w.db)
            (user_by_username username w.db)
            (stored_id comment_id)
            w.db
  unfolding delete delete_in_transaction delete_stored delete_comment rethrow_comment_error
  comment_delete_reliable reliable slug comment_id username w unique =
      elim (Option-cases (article_by_slug slug w.db)) [
        | inl no_article ↦ simp (reliable.transaction_eq, reliable.execute_eq, no_article)
        | inr (a, article) ↦ elim (Option-cases (user_by_username username w.db)) [
          | inl no_user ↦ simp (reliable.transaction_eq, reliable.execute_eq, article, no_user)
          | inr (u, user) ↦ elim (Option-cases (stored_id comment_id)) [
            | inl no_id ↦ simp (reliable.transaction_eq, reliable.execute_eq, article, user, no_id)
            | inr (id, is_id) ↦ elim (Option-cases (comment_by_id a.id id w.db)) [
              | inl no_comment ↦
                  simp
                    (reliable.transaction_eq, reliable.execute_eq, article, user, is_id, no_comment)
              | inr (c, comment) ↦ elim (Bool-cases (c.author_id == u.id)) [
                | inl mine ↦ simp (
                  reliable.transaction_eq,
                  reliable.execute_eq,
                  article,
                  user,
                  is_id,
                  comment,
                  mine,
                  count_found w.db a.id u.id id c unique comment mine,
                )
                | inr other ↦ simp (
                  reliable.transaction_eq, reliable.execute_eq, article, user, is_id, comment,
                  other,
                )
              ]
            ]
          ]
        ]
      ]
