-- ===== src/Jobs/Outbox/Steps.antt =====
-- The life of the outbox: what the program does to its rows, in any order and at any times.
use nest_js_tutorial.Base.{
  ℕ, ◌≤◌, ◌≡◌, refl, Bool, true, false, Option, none, some, Text, ◌==◌, List, [], ◌∷◌, ◌++◌, map,
  find, select, count, arith, same_option, if◌then◌else◌, All, Bool-cases, inl, inr,
}
use nest_js_tutorial.Database.{WelcomeMailOutbox, OutboxStatus, pending, dispatching, dispatched}
use nest_js_tutorial.Jobs.Outbox.{
  is_none, is_ready, ready_entries, claim, written, save_entries, is_leased_by, dispatch,
  make_available, mark_rows, release_rows,
}
use nest_js_tutorial.Jobs.Outbox.Lookup.{All-selected, All-find, All-map, All-order, All-take}

abbrev pub has_id : Text → WelcomeMailOutbox → Bool
has_id id e = e.id == id

-- `rows` is a table whose primary key is the id.
abbrev pub HasUniqueIds : List WelcomeMailOutbox → Type 0
HasUniqueIds rows = (id : Text) → count (has_id id) rows ≤ 1

abbrev pub IsStored : WelcomeMailOutbox → List WelcomeMailOutbox → Type 0
IsStored row rows = find (has_id row.id) rows ≡ some row

pub data Step : List WelcomeMailOutbox → List WelcomeMailOutbox → Type 0 where
  registered :
      (e : WelcomeMailOutbox) (rows : List WelcomeMailOutbox)
      → e.lease_owner ≡ none
      → e.lease_expires_at ≡ none
      → e.dispatched_at ≡ none
      → e.status ≡ pending
      → count (has_id e.id) rows ≡ 0
      → Step rows (rows ++ e ∷ [])
  claimed :
      (now expires limit : ℕ) (owner : Text) (rows : List WelcomeMailOutbox)
      → Step rows (save_entries (map (claim owner expires) (ready_entries now limit rows)) rows)
  marked :
      (now : ℕ) (id owner : Text) (rows : List WelcomeMailOutbox)
      → Step rows (mark_rows now id owner rows)
  released :
      (now : ℕ) (id owner : Text) (rows : List WelcomeMailOutbox)
      → Step rows (release_rows now id owner rows)

pub data Reachable (start : List WelcomeMailOutbox) : List WelcomeMailOutbox → Type 0 where
  initially : Reachable start start
  next :
      (rows rows' : List WelcomeMailOutbox)
      → Reachable start rows
      → Step rows rows'
      → Reachable start rows'

-- Which columns go with which status.
abbrev columns_agree : OutboxStatus → Option Text → Option ℕ → Option ℕ → Bool
columns_agree pending none none none = true
columns_agree dispatching (some owner) (some expires) none = true
columns_agree dispatched none none (some time) = true
columns_agree _ _ _ _ = false

abbrev pub IsConsistent : WelcomeMailOutbox → Type 0
IsConsistent e = columns_agree e.status e.lease_owner e.lease_expires_at e.dispatched_at ≡ true

undispatched :
    (now : ℕ) (e : WelcomeMailOutbox) → is_ready now e ≡ true → is_none e.dispatched_at ≡ true
unfolding is_ready
undispatched now e h = ground arith

none_lem : (o : Option ℕ) → is_none o ≡ true → o ≡ none
none_lem none h = refl
none_lem (some t) h = cc

claim-IsConsistent :
    (owner : Text) (expires : ℕ) (e : WelcomeMailOutbox)
    → is_none e.dispatched_at ≡ true
    → IsConsistent (claim owner expires e)
unfolding claim
claim-IsConsistent owner expires e h = simp (none_lem e.dispatched_at h)

pub ready_entries-All :
    (now limit : ℕ) (rows : List WelcomeMailOutbox)
    → All (λ e. is_none e.dispatched_at ≡ true) (ready_entries now limit rows)
unfolding ready_entries
ready_entries-All now limit rows =
    All-take (λ e. is_none e.dispatched_at ≡ true) limit _
      (All-order (λ e. is_none e.dispatched_at ≡ true) _
        (relax (select (is_ready now) rows) (All-selected (is_ready now) rows)))
  where
    relax :
        (es : List WelcomeMailOutbox)
        → All (λ e. is_ready now e ≡ true) es
        → All (λ e. is_none e.dispatched_at ≡ true) es
    relax [] h = tt
    relax (e ∷ es) h = (undispatched now e (h.0), relax es (h.1))

pub written-IsConsistent :
    (entries : List WelcomeMailOutbox) (row : WelcomeMailOutbox) (o : Option WelcomeMailOutbox)
    → All IsConsistent entries
    → find (λ e. e.id == row.id) entries ≡ o
    → IsConsistent row
    → IsConsistent (written row o)
written-IsConsistent entries row none all h k = k
written-IsConsistent entries row (some e) all h k =
    All-find IsConsistent (λ e. e.id == row.id) entries all h

pub marked-IsConsistent :
    (now : ℕ) (id owner : Text) (e : WelcomeMailOutbox)
    → IsConsistent e
    → IsConsistent (if is_leased_by id owner e then dispatch now e else e)
marked-IsConsistent now id owner e h = elim (Bool-cases (is_leased_by id owner e)) [
  | inl mine ↦ rw mine refl
  | inr other ↦ rw other h
]

-- A leased row is not dispatched.
leased_undispatched :
    (s : OutboxStatus) (o : Option Text) (l d : Option ℕ) (owner : Text)
    → columns_agree s o l d ≡ true
    → same_option o (some owner) ≡ true
    → d ≡ none
leased_undispatched s o l none owner h k = refl
leased_undispatched s none l (some t) owner h k = cc
leased_undispatched pending (some o) l (some t) owner h k = cc
leased_undispatched dispatching (some o) none (some t) owner h k = cc
leased_undispatched dispatching (some o) (some e) (some t) owner h k = cc
leased_undispatched dispatched (some o) l (some t) owner h k = cc

pub released-IsConsistent :
    (now : ℕ) (id owner : Text) (e : WelcomeMailOutbox)
    → IsConsistent e
    → IsConsistent (if is_leased_by id owner e then make_available now e else e)
released-IsConsistent now id owner e h = elim (Bool-cases (is_leased_by id owner e)) [
  | inl mine ↦
      rw
        (
          mine,
          leased_undispatched e.status e.lease_owner e.lease_expires_at e.dispatched_at owner h
              (ground (arith, mine)),
        )
        refl
  | inr other ↦ rw other h
]

pub claimed_entries-IsConsistent :
    (now expires limit : ℕ) (owner : Text) (rows : List WelcomeMailOutbox)
    → All IsConsistent (map (claim owner expires) (ready_entries now limit rows))
claimed_entries-IsConsistent now expires limit owner rows =
    All-map IsConsistent (λ e. is_none e.dispatched_at ≡ true) (claim owner expires) _
      (claim-IsConsistent owner expires) (ready_entries-All now limit rows)
