-- ===== src/Comments/Following.antt =====
-- Whom a viewer follows among the authors of comments, as it is stored.
use nest_js_tutorial.Base.{
  ◌≡◌, refl, sym, ap, ◌∙◌, ◌⊎◌, inl, inr, Bool, true, false, ◌&&◌, ◌||◌, Option, none, some, Text,
  ◌==◌, ==_iff, List, [], ◌∷◌, map, find, select, Bool-cases, if◌then◌else◌,
}
use nest_js_tutorial.Database.{Db, User, Comment, UserFollow}
use nest_js_tutorial.Articles.Tags.{contains}
use nest_js_tutorial.Articles.Tags.Unique.{contains-unique_from}
use nest_js_tutorial.Comments.{is_named, author_ids, load_followed_authors}

abbrev pub IsAmong : UserFollow → List UserFollow → Type 0
IsAmong f [] = ⊥
IsAmong f (g ∷ gs) = (g ≡ f) ⊎ IsAmong f gs

-- A row of the follows joins a user of this name to this author.
abbrev pub IsFollowedIn : List User → List UserFollow → Text → Text → Type 0
IsFollowedIn users follows viewer_username author_id =
    (f : UserFollow) × (viewer : User) × IsAmong f follows
    × (find (λ u. User.id u == f.follower_id) users ≡ some viewer)
    × (viewer.username ≡ viewer_username)
    × (f.following_id ≡ author_id)

abbrev test : List User → Text → List Text → UserFollow → Bool
test users name ids f =
    is_named name (find (λ u. User.id u == UserFollow.follower_id f) users)
    && contains ids (UserFollow.following_id f)

abbrev loaded : List User → Text → List Text → List UserFollow → List Text
loaded users name ids follows = map UserFollow.following_id (select (test users name ids) follows)

named_lem :
    (name : Text) (o : Option User)
    → is_named name o ≡ true
    → (u : User) × (o ≡ some u) × (u.username ≡ name)
named_lem name none h = cc
named_lem name (some u) h = (u, refl, (==_iff u.username name).0 h)

later :
    (users : List User) (g : UserFollow) (gs : List UserFollow) (name x : Text)
    → IsFollowedIn users gs name x
    → IsFollowedIn users (g ∷ gs) name x
later users g gs name x (f, u, among, a, b, c) = (f, u, inr among, a, b, c)

loaded-sound :
    (users : List User) (name x : Text) (ids : List Text) (follows : List UserFollow)
    → contains (loaded users name ids follows) x ≡ true
    → IsFollowedIn users follows name x
unfolding select
loaded-sound users name x ids [] h = cc
loaded-sound users name x ids (g ∷ gs) h = elim (Bool-cases (test users name ids g)) [
  | inr fails ↦ later users g gs name x (loaded-sound users name x ids gs (skip fails))
  | inl passes ↦ elim (Bool-cases (g.following_id == x)) [
    | inl here ↦
        let named : is_named name (find (λ u. User.id u == g.follower_id) users) ≡ true =
          left _ _ passes in
        let (u, found, is_name) = named_lem name _ named in
        (g, u, inl refl, found, is_name, (==_iff g.following_id x).0 here)
    | inr other ↦ later users g gs name x (loaded-sound users name x ids gs (rest passes other))
  ]
]
  where
    chosen : Bool → List UserFollow
    chosen b = if b then g ∷ select (test users name ids) gs else select (test users name ids) gs

    skip : test users name ids g ≡ false → contains (loaded users name ids gs) x ≡ true
    skip p = sym (ap (λ b. contains (map UserFollow.following_id (chosen b)) x) p) ∙ h

    rest :
        test users name ids g ≡ true
        → (g.following_id == x) ≡ false
        → contains (loaded users name ids gs) x ≡ true
    rest p q =
        sym (ap (λ b. b || contains (loaded users name ids gs) x) q)
        ∙ sym (ap (λ b. contains (map UserFollow.following_id (chosen b)) x) p)
        ∙ h

    left : (a b : Bool) → (a && b) ≡ true → a ≡ true
    left true b k = refl
    left false b k = k

loaded_complete :
    (users : List User) (name x : Text) (ids : List Text) (follows : List UserFollow)
    → contains ids x ≡ true
    → IsFollowedIn users follows name x
    → contains (loaded users name ids follows) x ≡ true
unfolding select
loaded_complete users name x ids [] h (f, u, among, a, b, c) = absurd among
loaded_complete users name x ids (g ∷ gs) h (f, u, inl here, a, b, c) =
    let found : find (λ v. User.id v == g.follower_id) users ≡ some u =
      ap (λ y. find (λ v. User.id v == UserFollow.follower_id y) users) here ∙ a in
    let named : is_named name (find (λ v. User.id v == g.follower_id) users) ≡ true =
      ap (is_named name) found ∙ (==_iff u.username name).1 b in
    let same : g.following_id ≡ x = ap UserFollow.following_id here ∙ c in
    let asked : contains ids g.following_id ≡ true = ap (contains ids) same ∙ h in
    let it : (g.following_id == x) ≡ true = (==_iff g.following_id x).1 same in
    rw (named, asked, it) refl
loaded_complete users name x ids (g ∷ gs) h (f, u, inr among, a, b, c) =
    let rest = loaded_complete users name x ids gs h (f, u, among, a, b, c) in
    elim (Bool-cases (test users name ids g)) [
      | inl passes ↦ rw (passes, rest) (or_true (g.following_id == x))
      | inr fails ↦ rw fails rest
    ]
  where
    or_true : (b : Bool) → (b || true) ≡ true
    or_true true = refl
    or_true false = refl

-- The set that is made for an author's comments tells whom the viewer follows.
pub followed_iff :
    (name x : Text) (ids : List Text) (d : Db)
    → contains ids x ≡ true
    → (contains (load_followed_authors name ids d) x ≡ true
        → IsFollowedIn d.users d.user_follows name x)
      × (IsFollowedIn d.users d.user_follows name x
          → contains (load_followed_authors name ids d) x ≡ true)
unfolding load_followed_authors
followed_iff name x ids d h = (
  loaded-sound d.users name x ids d.user_follows,
  loaded_complete d.users name x ids d.user_follows h,
)

pub contains-author_ids :
    (comments : List (Comment × User)) (x : Text)
    → contains (author_ids comments) x ≡ contains (map (λ y. User.id (y.1)) comments) x
unfolding author_ids
contains-author_ids comments x = contains-unique_from [] (map (λ y. User.id (y.1)) comments) x
