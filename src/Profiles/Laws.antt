-- ===== src/Profiles/Laws.antt =====
-- What a request to follow a user, or to take that back, does.
use nest_js_tutorial.Base.{
  ◌≡◌, refl, Bool, true, false, not, Option, none, some, Text, codes, ◌==◌, ==_refl, List, [], ◌∷◌,
  ◌++◌, arith, select, any, if◌then◌else◌, Bool-cases, Option-cases, inl, inr,
}
use nest_js_tutorial.Runtime.{Exception, Outcome, returned, thrown, errors_body}
use nest_js_tutorial.Database.{Db, User, UserFollow, Orm, World}
use nest_js_tutorial.Database.Reliable.{IsReliable}
use nest_js_tutorial.Database.Statements.{user_by_username}
use nest_js_tutorial.Serializers.{SerializedAuthor, serialize_profile}
use nest_js_tutorial.Articles.Read.{has_follow}
use nest_js_tutorial.Profiles.{
  add_follow, remove_follow, is_follow, profile_error, follow_error, unfollow_error, follow,
  unfollow, follow_profile, unfollow_profile,
}

-- The specification of a request to follow, by who has been found.
abbrev pub follow_decision : Option User → Option User → Db → Outcome SerializedAuthor × Db
follow_decision follower none d = (thrown (profile_error (codes "not found")), d)
follow_decision none (some following) d = (thrown (profile_error (codes "not found")), d)
follow_decision (some follower) (some following) d =
    if follower.id == following.id
    then (
      thrown (Exception.http 422 (errors_body (codes "profile") (codes "cannot follow yourself"))),
      d,
    )
    else (returned (serialize_profile following true), add_follow follower.id following.id d)

abbrev pub unfollow_decision : Option User → Option User → Db → Outcome SerializedAuthor × Db
unfollow_decision follower none d = (thrown (profile_error (codes "not found")), d)
unfollow_decision none (some following) d = (thrown (profile_error (codes "not found")), d)
unfollow_decision (some follower) (some following) d =
    (returned (serialize_profile following false), remove_follow follower.id following.id d)

any-last :
    (p : UserFollow → Bool) (fs : List UserFollow) (f : UserFollow)
    → p f ≡ true
    → any p (fs ++ f ∷ []) ≡ true
any-last p [] f h = ground arith
any-last p (g ∷ gs) f h = ground (arith, any-last p gs f h)

any-removed :
    (p : UserFollow → Bool) (fs : List UserFollow) → any p (select (λ f. not (p f)) fs) ≡ false
unfolding select
any-removed p [] = refl
any-removed p (f ∷ fs) = ground (arith, any-removed p fs)

follow_itself : (a b : Text) → is_follow a b (record { follower_id = a; following_id = b }) ≡ true
follow_itself a b = ground (arith, ==_refl a, ==_refl b)

-- A follow that is stored is seen, and storing it again changes nothing; one that is removed is not
-- seen.
pub follow_lem :
    (a b : Text) (d : Db)
    → (has_follow a b (add_follow a b d) ≡ true)
      × (add_follow a b (add_follow a b d) ≡ add_follow a b d)
      × (has_follow a b (remove_follow a b d) ≡ false)
unfolding has_follow add_follow remove_follow
follow_lem a b d = elim (Bool-cases (any (is_follow a b) d.user_follows)) [
  | inl stored ↦
      (ground (arith, stored), simp (stored, stored), any-removed (is_follow a b) d.user_follows)
  | inr new ↦
      let last =
        any-last (is_follow a b) d.user_follows (record { follower_id = a; following_id = b })
          (follow_itself a b) in
      (simp (new, last), simp (new, last), any-removed (is_follow a b) d.user_follows)
]

module _ (orm : Orm) where
  -- With a driver that does not fail by itself, a request to follow ends as the decision says: an
  -- unknown user on either side is not found, nobody follows themselves, and otherwise the follow is
  -- stored.
  pub follow_profile_reliable :
      (reliable : IsReliable orm) (subject username : Text) (w : World orm.Env)
      → let (r, w') = follow_profile orm subject username w in
        (r, w'.db)
        ≡ follow_decision (user_by_username subject w.db) (user_by_username username w.db) w.db
  unfolding follow_profile follow follow_error add_follow
  follow_profile_reliable reliable subject username w =
      elim (Option-cases (user_by_username username w.db)) [
        | inl absent ↦ simp (reliable.execute_eq, absent)
        | inr (following, found) ↦ elim (Option-cases (user_by_username subject w.db)) [
          | inl nobody ↦ simp (reliable.execute_eq, found, nobody)
          | inr (follower, known) ↦ elim (Bool-cases (follower.id == following.id)) [
            | inl same ↦ simp (reliable.execute_eq, found, known, same)
            | inr other ↦ simp (reliable.execute_eq, found, known, other)
          ]
        ]
      ]

  -- The same for a request to take the follow back.
  pub unfollow_profile_reliable :
      (reliable : IsReliable orm) (subject username : Text) (w : World orm.Env)
      → let (r, w') = unfollow_profile orm subject username w in
        (r, w'.db)
        ≡ unfollow_decision (user_by_username subject w.db) (user_by_username username w.db) w.db
  unfolding unfollow_profile unfollow unfollow_error
  unfollow_profile_reliable reliable subject username w =
      elim (Option-cases (user_by_username username w.db)) [
        | inl absent ↦ simp (reliable.execute_eq, absent)
        | inr (following, found) ↦ elim (Option-cases (user_by_username subject w.db)) [
          | inl nobody ↦ simp (reliable.execute_eq, found, nobody)
          | inr (follower, known) ↦ simp (reliable.execute_eq, found, known)
        ]
      ]
