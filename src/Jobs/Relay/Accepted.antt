-- ===== src/Jobs/Relay/Accepted.antt =====
-- A mail is marked as dispatched only when the queue has accepted it.
use nest_js_tutorial.Base.{
  ℕ, ◌+◌, ◌≡◌, ◌⊎◌, refl, sym, ap, ◌∙◌, subst, inl, inr, Bool, true, false, Option, none, some,
  Text, ◌==◌, ==_iff, List, [], ◌∷◌, map, find, find-some, All, Bool-cases, if◌then◌else◌,
}
use nest_js_tutorial.Runtime.{Exception, Outcome, returned, thrown, M, throw, ◌>>◌, after, recover}
use nest_js_tutorial.Database.{Db, WelcomeMailOutbox, Orm, World, command}
use nest_js_tutorial.Database.Transactions.{transaction-thrown}
use nest_js_tutorial.Jobs.Outbox.{
  ClaimedWelcomeMailOutbox, is_none, ready_entries, claim, claimed_entries, save_entries, written,
  mark_rows, release_rows, is_leased_by, dispatch, make_available, lease_duration_ms, claim_ready,
  mark_dispatched, release,
}
use nest_js_tutorial.Jobs.Outbox.Steps.{has_id, ready_entries-All}
use nest_js_tutorial.Jobs.Outbox.Lookup.{All-find, All-map}
use nest_js_tutorial.Jobs.Relay.{Queue, relay_batch_size, give_back, relay_entries, relay_ready}
use nest_js_tutorial.Jobs.Relay.Progress.{written-id}
use nest_js_tutorial.Jobs.Relay.Laws.{claim_ready-returned, Executed-cases}

find-map-back :
    (p : WelcomeMailOutbox → Bool) (f : WelcomeMailOutbox → WelcomeMailOutbox)
    (xs : List WelcomeMailOutbox) (b : WelcomeMailOutbox)
    → ((x : WelcomeMailOutbox) → p (f x) ≡ p x)
    → find p (map f xs) ≡ some b
    → (a : WelcomeMailOutbox) × (find p xs ≡ some a) × (f a ≡ b)
unfolding find
find-map-back p f [] b h k = cc
find-map-back p f (x ∷ xs) b h k = elim (Bool-cases (p x)) [
  | inl here ↦ let same : some (f x) ≡ some b = rw (h x, here) at k in (x, rw here refl, cc)
  | inr other ↦
      let k = rw (h x, other) at k in
      let (a, found, same) = find-map-back p f xs b h k in (a, rw other found, same)
]

module _ (orm : Orm) (queue : Queue orm) (time : Text → ℕ) (owner id : Text) where
  -- The queue has accepted this mail, of a claim of this owner.
  abbrev pub IsAccepted : Type 0
  IsAccepted =
      (e : ClaimedWelcomeMailOutbox) × (w : World orm.Env) × (e.id ≡ id)
      × (e.lease_owner ≡ owner)
      × ((queue.add e w).0 ≡ returned tt)

  -- The row of this id is not dispatched, or the queue has accepted the mail.
  abbrev IsAccounted : List WelcomeMailOutbox → Type 0
  IsAccounted rows =
      (b : WelcomeMailOutbox)
      → find (has_id id) rows ≡ some b
      → (is_none b.dispatched_at ≡ true) ⊎ IsAccepted

  -- A change of the rows that keeps their ids, and dispatches this one only if it is accepted.
  map-IsAccounted :
      (f : WelcomeMailOutbox → WelcomeMailOutbox) (rows : List WelcomeMailOutbox)
      → ((x : WelcomeMailOutbox) → (f x).id ≡ x.id)
      → ((x : WelcomeMailOutbox)
          → x.id ≡ id
          → is_none x.dispatched_at ≡ true
          → (is_none (f x).dispatched_at ≡ true) ⊎ IsAccepted)
      → IsAccounted rows
      → IsAccounted (map f rows)
  map-IsAccounted f rows keeps changes before b h =
      let (a, found, same) =
        find-map-back (has_id id) f rows b (λ x. ap (λ i. i == id) (keeps x)) h in
      elim (before a found) [
        | inr accepted ↦ inr accepted
        | inl open_still ↦
            subst (λ x. (is_none (WelcomeMailOutbox.dispatched_at x) ≡ true) ⊎ IsAccepted) same
              (changes a ((==_iff a.id id).0 (find-some (has_id id) rows found)) open_still)
      ]

  claimed-IsAccounted :
      (now expires : ℕ) (rows : List WelcomeMailOutbox)
      → IsAccounted rows
      → IsAccounted
          (save_entries (map (claim owner expires) (ready_entries now relay_batch_size rows)) rows)
  unfolding save_entries claim
  claimed-IsAccounted now expires rows =
      map-IsAccounted (λ row. written row (find (λ e. WelcomeMailOutbox.id e == row.id) entries))
        rows (written-id entries)
        (λ x same open_still.
          inl (saved x (find (λ e. WelcomeMailOutbox.id e == x.id) entries) refl open_still))
    where
      entries : List WelcomeMailOutbox
      entries = map (claim owner expires) (ready_entries now relay_batch_size rows)

      saved :
          (x : WelcomeMailOutbox) (o : Option WelcomeMailOutbox)
          → find (λ e. WelcomeMailOutbox.id e == x.id) entries ≡ o
          → is_none x.dispatched_at ≡ true
          → is_none (written x o).dispatched_at ≡ true
      saved x none k open_still = open_still
      saved x (some e) k open_still =
          All-find (λ e. is_none (WelcomeMailOutbox.dispatched_at e) ≡ true)
            (λ e. WelcomeMailOutbox.id e == x.id) entries
            (All-map (λ e. is_none (WelcomeMailOutbox.dispatched_at e) ≡ true)
              (λ e. is_none (WelcomeMailOutbox.dispatched_at e) ≡ true) (claim owner expires) _
              (λ e h. h) (ready_entries-All now relay_batch_size rows))
            k

  marked-IsAccounted :
      (e : ClaimedWelcomeMailOutbox) (rows : List WelcomeMailOutbox)
      → ((e.id ≡ id) → IsAccepted)
      → IsAccounted rows
      → IsAccounted (mark_rows (time e.id) e.id e.lease_owner rows)
  unfolding mark_rows
  marked-IsAccounted e rows accepted =
      map-IsAccounted (λ x. if is_leased_by e.id e.lease_owner x then dispatch (time e.id) x else x)
        rows (λ x. ap_id (is_leased_by e.id e.lease_owner x) x)
        (λ x same open_still. elim (Bool-cases (x.id == e.id)) [
          | inl its ↦ inr (accepted (sym ((==_iff x.id e.id).0 its) ∙ same))
          | inr other ↦ inl (rw other open_still)
        ])
    where
      ap_id :
          (b : Bool) (x : WelcomeMailOutbox)
          → WelcomeMailOutbox.id (if b then dispatch (time e.id) x else x) ≡ x.id
      ap_id true x = refl
      ap_id false x = refl

  released-IsAccounted :
      (e : ClaimedWelcomeMailOutbox) (rows : List WelcomeMailOutbox)
      → IsAccounted rows
      → IsAccounted (release_rows (time e.id) e.id e.lease_owner rows)
  unfolding release_rows
  released-IsAccounted e rows =
      map-IsAccounted
        (λ x. if is_leased_by e.id e.lease_owner x then make_available (time e.id) x else x) rows
        (λ x. (both (is_leased_by e.id e.lease_owner x) x).0)
        (λ x same open_still.
          inl (ap is_none ((both (is_leased_by e.id e.lease_owner x) x).1) ∙ open_still))
    where
      both :
          (b : Bool) (x : WelcomeMailOutbox)
          → let y = if b then make_available (time e.id) x else x in
            (y.id ≡ x.id) × (y.dispatched_at ≡ x.dispatched_at)
      both true x = (refl, refl)
      both false x = (refl, refl)

  -- A statement on the outbox that keeps the accounts.
  stated-IsAccounted :
      (g : List WelcomeMailOutbox → List WelcomeMailOutbox) (w : World orm.Env)
      → (IsAccounted w.db.outbox → IsAccounted (g w.db.outbox))
      → IsAccounted w.db.outbox
      → IsAccounted (orm.execute (command (λ d. record d { outbox = g d.outbox })) w).1.db.outbox
  stated-IsAccounted g w keeps h =
      let change : Db → Db = λ d. record d { outbox = g d.outbox } in
      elim (Executed-cases orm change w (orm.execute (command change) w)
        (orm.execute_lem (command change) w)) [
          | inl done ↦ subst IsAccounted (sym (ap Db.outbox done)) (keeps h)
          | inr left ↦ subst IsAccounted (sym (ap Db.outbox left)) h
        ]

  after-IsAccounted :
      {A B : Type 0} (o : Outcome A × World orm.Env) (f : A → M (World orm.Env) B)
      → IsAccounted o.1.db.outbox
      → ((a : A) (t : World orm.Env)
          → o ≡ (returned a, t)
          → IsAccounted t.db.outbox
          → IsAccounted (f a t).1.db.outbox)
      → IsAccounted (after o f).1.db.outbox
  after-IsAccounted (returned a, t) f h k = k a t refl h
  after-IsAccounted (thrown e, t) f h k = h

  give_back-thrown :
      (e : ClaimedWelcomeMailOutbox) (w : World orm.Env)
      → (x : Exception) × ((give_back orm queue time e w).0 ≡ thrown x)
  unfolding give_back
  give_back-thrown e w = ends (release orm (time e.id) e.id e.lease_owner w)
    where
      ends :
          (o : Outcome (Unit {0}) × World orm.Env)
          → (x : Exception) × ((after {B = Unit} o
                (λ _. throw (Exception.welcome_mail_outbox_relay e.id))).0
              ≡ thrown x)
      ends (returned u, t) = (Exception.welcome_mail_outbox_relay e.id, refl)
      ends (thrown x, t) = (x, refl)

  give_back-IsAccounted :
      (e : ClaimedWelcomeMailOutbox) (w : World orm.Env)
      → IsAccounted w.db.outbox
      → IsAccounted (give_back orm queue time e w).1.db.outbox
  unfolding give_back release
  give_back-IsAccounted e w h =
      after-IsAccounted _ _
        (stated-IsAccounted (release_rows (time e.id) e.id e.lease_owner) w
          (released-IsAccounted e w.db.outbox) h)
        (λ _ t _ k. k)

  abbrev guarded_add :
      ClaimedWelcomeMailOutbox
      → Outcome (Unit {0}) × World orm.Env
      → Outcome (Unit {0}) × World orm.Env
  guarded_add e o = recover o (λ x. give_back orm queue time e)

  -- An entry that goes on to be marked has been accepted.
  added :
      (e : ClaimedWelcomeMailOutbox) (o : Outcome (Unit {0}) × World orm.Env) (t : World orm.Env)
      → guarded_add e o ≡ (returned tt, t)
      → o.0 ≡ returned tt
  added e (returned u, s) t h = refl
  added e (thrown x, s) t h =
      let (y, failed) = give_back-thrown e s in let bad = sym failed ∙ ap (λ o. o.0) h in cc

  guarded-IsAccounted :
      (e : ClaimedWelcomeMailOutbox) (o : Outcome (Unit {0}) × World orm.Env)
      → IsAccounted o.1.db.outbox
      → IsAccounted (guarded_add e o).1.db.outbox
  guarded-IsAccounted e (returned u, s) h = h
  guarded-IsAccounted e (thrown x, s) h = give_back-IsAccounted e s h

  relay_entries-IsAccounted :
      (es : List ClaimedWelcomeMailOutbox) (w : World orm.Env)
      → All (λ e. ClaimedWelcomeMailOutbox.lease_owner e ≡ owner) es
      → IsAccounted w.db.outbox
      → IsAccounted (relay_entries orm queue time es w).1.db.outbox
  unfolding relay_entries mark_dispatched
  relay_entries-IsAccounted [] w own h = h
  relay_entries-IsAccounted (e ∷ es) w (own, others) h =
      let mark = mark_dispatched orm (time e.id) e.id e.lease_owner in
      after-IsAccounted {A = Unit} {B = Unit} (guarded_add e (queue.add e w))
        (λ _. mark >> relay_entries orm queue time es)
        (guarded-IsAccounted e (queue.add e w)
          (subst IsAccounted (sym (ap Db.outbox (queue.add_lem e w))) h))
        (λ _ t ran k.
          after-IsAccounted {A = Unit} {B = Unit} (mark t) (λ _. relay_entries orm queue time es)
            (stated-IsAccounted (mark_rows (time e.id) e.id e.lease_owner) t
              (marked-IsAccounted e t.db.outbox
                (λ same. (e, w, same, own, added e (queue.add e w) t ran)))
              k)
            (λ _ u _ j. relay_entries-IsAccounted es u others j))

  own_entries :
      (es : List WelcomeMailOutbox)
      → All (λ e. ClaimedWelcomeMailOutbox.lease_owner e ≡ owner) (claimed_entries owner es)
  unfolding claimed_entries
  own_entries [] = tt
  own_entries (e ∷ es) = (refl, own_entries es)

  claim_ready-IsAccounted :
      (db_now app_now : ℕ) (w : World orm.Env)
      (o : Outcome (List ClaimedWelcomeMailOutbox) × World orm.Env)
      → claim_ready orm db_now app_now owner relay_batch_size w ≡ o
      → IsAccounted w.db.outbox
      → IsAccounted o.1.db.outbox
        × ((es : List ClaimedWelcomeMailOutbox) (t : World orm.Env)
            → o ≡ (returned es, t)
            → All (λ e. ClaimedWelcomeMailOutbox.lease_owner e ≡ owner) es)
  unfolding claim_ready
  claim_ready-IsAccounted db_now app_now w (returned r, w') run h =
      let (shows, saved) =
        claim_ready-returned orm db_now app_now owner relay_batch_size w w' r run in
      (
        subst IsAccounted (sym (ap Db.outbox saved))
            (claimed-IsAccounted db_now (app_now + lease_duration_ms) w.db.outbox h),
        λ es t ends.
            let same : r ≡ es = cc in
            subst (All (λ e. ClaimedWelcomeMailOutbox.lease_owner e ≡ owner)) (sym shows ∙ same)
              (own_entries _),
      )
  claim_ready-IsAccounted db_now app_now w (thrown x, w') run h =
      (subst IsAccounted (sym (ap Db.outbox (transaction-thrown orm _ w run))) h, λ es t ends. cc)

  -- However a run of the relay ends, and whatever the driver and the queue do, a mail that was not
  -- dispatched before the run and is dispatched after it has been accepted by the queue, from a claim
  -- of this run's owner.
  pub relay_ready_accepted :
      (db_now app_now : ℕ) (w : World orm.Env) (a b : WelcomeMailOutbox) (t : ℕ)
      → find (has_id id) w.db.outbox ≡ some a
      → a.dispatched_at ≡ none
      → find (has_id id) (relay_ready orm queue time db_now app_now owner w).1.db.outbox ≡ some b
      → b.dispatched_at ≡ some t
      → IsAccepted
  unfolding relay_ready
  relay_ready_accepted db_now app_now w a b t before open_still after_run done =
      let claimed = claim_ready orm db_now app_now owner relay_batch_size w in
      let start : IsAccounted w.db.outbox = λ x found.
        let same : some a ≡ some x = sym before ∙ found in
        let a_x : a ≡ x = cc in
        inl (ap is_none (ap WelcomeMailOutbox.dispatched_at (sym a_x) ∙ open_still)) in
      let (kept, own) = claim_ready-IsAccounted db_now app_now w claimed refl start in
      let accounted =
        after-IsAccounted claimed (relay_entries orm queue time) kept
          (λ es u ran h. relay_entries-IsAccounted es u (own es u ran) h) in
      elim (accounted b after_run) [
        | inl still_open ↦ let bad = sym (ap is_none done) ∙ still_open in cc
        | inr accepted ↦ accepted
      ]
