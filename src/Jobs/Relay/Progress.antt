-- ===== src/Jobs/Relay/Progress.antt =====
-- A run of the relay ends, and moves the oldest mails that are ready to the queue.
use nest_js_tutorial.Base.{
  ℕ, ◌+◌, ◌≡◌, refl, sym, ap, ◌∙◌, subst, Bool, true, false, ◌||◌, none, some, Text, ◌==◌, ==_iff,
  ==_refl, same_option, List, [], ◌∷◌, map, any, find, find-map, find-some, find-any, arith,
  if◌then◌else◌, Option-cases, Bool-cases, inl, inr,
}
use nest_js_tutorial.Runtime.{Exception, Outcome, returned, thrown, M, after, recover}
use nest_js_tutorial.Database.{Db, WelcomeMailOutbox, Orm, World, command}
use nest_js_tutorial.Database.Reliable.{IsReliable}
use nest_js_tutorial.Jobs.Outbox.{
  ClaimedWelcomeMailOutbox, ready_entries, claim, claimed_entries, save_entries, mark_rows,
  dispatch, is_leased_by, written, lease_duration_ms, claim_ready, mark_dispatched,
}
use nest_js_tutorial.Jobs.Relay.{Queue, relay_batch_size, give_back, relay_entries, relay_ready}
use nest_js_tutorial.Jobs.Relay.Laws.{mark_all, relay_ready_returned}

abbrev pub has_id : Text → WelcomeMailOutbox → Bool
has_id id e = e.id == id

pub written-id :
    (entries : List WelcomeMailOutbox) (row : WelcomeMailOutbox)
    → WelcomeMailOutbox.id
        (written row (find (λ e. WelcomeMailOutbox.id e == WelcomeMailOutbox.id row) entries))
      ≡ row.id
written-id entries row =
    elim (Option-cases (find (λ e. WelcomeMailOutbox.id e == row.id) entries)) [
      | inl absent ↦ rw absent refl
      | inr (e, found) ↦ rw found (
          (==_iff (WelcomeMailOutbox.id e) row.id).0
            (find-some (λ e. WelcomeMailOutbox.id e == row.id) entries found))
    ]

-- The lookup of a row by its id after the claimed rows have been written.
save_entries-find :
    (id : Text) (entries rows : List WelcomeMailOutbox) (a e : WelcomeMailOutbox)
    → find (has_id id) rows ≡ some a
    → find (has_id id) entries ≡ some e
    → find (has_id id) (save_entries entries rows) ≡ some e
unfolding save_entries
save_entries-find id entries rows a e h k =
    let save : WelcomeMailOutbox → WelcomeMailOutbox =
      λ row. written row (find (λ e. WelcomeMailOutbox.id e == WelcomeMailOutbox.id row) entries) in
    let same : a.id ≡ id = (==_iff a.id id).0 (find-some (has_id id) rows h) in
    let there : find (λ e. WelcomeMailOutbox.id e == a.id) entries ≡ some e =
      ap (λ i. find (λ e. WelcomeMailOutbox.id e == i) entries) same ∙ k in
    find-map (has_id id) save rows (λ row. ap (λ i. i == id) (written-id entries row)) h
    ∙ ap (λ o. some (written a o)) there

module _ (time : Text → ℕ) where
  -- What the marking of the entries makes of one row.
  abbrev marked_row : List ClaimedWelcomeMailOutbox → WelcomeMailOutbox → WelcomeMailOutbox
  marked_row [] row = row
  marked_row (e ∷ es) row =
      marked_row es (if is_leased_by e.id e.lease_owner row then dispatch (time e.id) row else row)

  mark_id :
      (id owner : Text) (now : ℕ) (row : WelcomeMailOutbox)
      → WelcomeMailOutbox.id (if is_leased_by id owner row then dispatch now row else row) ≡ row.id
  mark_id id owner now row = ground arith

  mark_all-find :
      (orm : Orm) (queue : Queue orm) (id : Text) (es : List ClaimedWelcomeMailOutbox)
      (rows : List WelcomeMailOutbox) (a : WelcomeMailOutbox)
      → find (has_id id) rows ≡ some a
      → find (has_id id) (mark_all orm queue time es rows) ≡ some (marked_row es a)
  unfolding mark_rows
  mark_all-find orm queue id [] rows a h = h
  mark_all-find orm queue id (e ∷ es) rows a h =
      let mark : WelcomeMailOutbox → WelcomeMailOutbox =
        λ row. if is_leased_by e.id e.lease_owner row then dispatch (time e.id) row else row in
      mark_all-find orm queue id es (map mark rows) (mark a) (
        find-map (has_id id) mark rows
          (λ row. ap (λ i. i == id) (mark_id e.id e.lease_owner (time e.id) row)) h)

  -- A row without a lease is left alone.
  marked-unleased :
      (es : List ClaimedWelcomeMailOutbox) (row : WelcomeMailOutbox)
      → row.lease_owner ≡ none
      → marked_row es row ≡ row
  marked-unleased [] row h = refl
  marked-unleased (e ∷ es) row h =
      let not_leased : is_leased_by e.id e.lease_owner row ≡ false =
        rw h (elim (Bool-cases (row.id == e.id)) [ inl b ↦ rw b refl | inr b ↦ rw b refl ]) in
      ap (λ b. marked_row es (if b then dispatch (time e.id) row else row)) not_leased
      ∙ marked-unleased es row h

  -- A row of the run that has its lease is dispatched.
  marked-dispatched :
      (owner : Text) (claimed : List WelcomeMailOutbox) (row : WelcomeMailOutbox)
      → row.lease_owner ≡ some owner
      → any (λ e. WelcomeMailOutbox.id e == row.id) claimed ≡ true
      → marked_row (claimed_entries owner claimed) row ≡ dispatch (time row.id) row
  unfolding claimed_entries
  marked-dispatched owner [] row h k = cc
  marked-dispatched owner (e ∷ es) row h k = elim (Bool-cases (row.id == e.id)) [
    | inl own ↦
        let same : row.id ≡ e.id = (==_iff row.id e.id).0 own in
        let owned : same_option row.lease_owner (some owner) ≡ true =
          ap (λ o. same_option o (some owner)) h ∙ ==_refl owner in
        let leased : is_leased_by e.id owner row ≡ true = rw (own, owned) refl in
        ap
          (λ b. marked_row (claimed_entries owner es) (if b then dispatch (time e.id) row else row))
          leased
        ∙ marked-unleased (claimed_entries owner es) (dispatch (time e.id) row) refl
        ∙ ap (λ i. dispatch (time i) row) (sym same)
    | inr other ↦
        let not_leased : is_leased_by e.id owner row ≡ false = rw other refl in
        let differs : (e.id == row.id) ≡ false = elim (Bool-cases (e.id == row.id)) [
          | inl b ↦ let back = (==_iff row.id e.id).1 (sym ((==_iff e.id row.id).0 b)) in cc
          | inr b ↦ b
        ] in
        let later : any (λ e. WelcomeMailOutbox.id e == row.id) es ≡ true =
          sym (ap (λ b. b || any (λ e. WelcomeMailOutbox.id e == row.id) es) differs) ∙ k in
        ap
          (λ b. marked_row (claimed_entries owner es) (if b then dispatch (time e.id) row else row))
          not_leased
        ∙ marked-dispatched owner es row h later
  ]

-- A call that returns, and what follows it.
after-returns :
    {S A B : Type 0} (o : Outcome A × S) (a : A) (k : A → M S B) (b : B)
    → o.0 ≡ returned a
    → ((s : S) → (k a s).0 ≡ returned b)
    → (after o k).0 ≡ returned b
after-returns (returned x, s) a k b h l = let same : x ≡ a = cc in ap (λ y. (k y s).0) same ∙ l s
after-returns (thrown e, s) a k b h l = cc

-- A statement and its handler, if the statement returns.
recovered-returns :
    {S A B : Type 0} (o : Outcome A × S) (a : A) (f : Exception → M S A) (k : A → M S B) (b : B)
    → o.0 ≡ returned a
    → ((s : S) → (k a s).0 ≡ returned b)
    → (after (recover o f) k).0 ≡ returned b
recovered-returns (returned x, s) a f k b h l =
    let same : x ≡ a = cc in ap (λ y. (k y s).0) same ∙ l s
recovered-returns (thrown e, s) a f k b h l = cc

module _ (orm : Orm) (queue : Queue orm) (reliable : IsReliable orm) (time : Text → ℕ)
    (accepts : (e : ClaimedWelcomeMailOutbox) (w : World orm.Env)
      → (queue.add e w).0 ≡ returned tt) where
  relay_entries-returns :
      (es : List ClaimedWelcomeMailOutbox) (w : World orm.Env)
      → (relay_entries orm queue time es w).0 ≡ returned tt
  unfolding relay_entries mark_dispatched
  relay_entries-returns [] w = refl
  relay_entries-returns (e ∷ es) w =
      recovered-returns (queue.add e w) tt (λ x. give_back orm queue time e) _ tt (accepts e w)
        (λ s.
          let mark =
            command
              (λ d. record d { outbox = mark_rows (time e.id) e.id e.lease_owner d.outbox }) in
          ap (λ o. (after o (λ u. relay_entries orm queue time es)).0) (reliable.execute_eq mark s)
          ∙ relay_entries-returns es (record { db = (mark s.db).1; env = reliable.next s.env }))

  claim_ready-returns :
      (db_now app_now : ℕ) (owner : Text) (w : World orm.Env)
      → (claim_ready orm db_now app_now owner relay_batch_size w).0
        ≡ returned (
            claimed_entries owner (
              map
                (claim owner (app_now + lease_duration_ms))
                (ready_entries db_now relay_batch_size w.db.outbox)))
  unfolding claim_ready
  claim_ready-returns db_now app_now owner w = simp (reliable.transaction_eq, reliable.execute_eq)

  -- With a driver that does not fail by itself and a queue that accepts what it is given, a run of the
  -- relay returns, and a mail of the outbox that is among the oldest 20 that are ready has been
  -- dispatched by it, under a lease of this run that is given up again.
  pub relay_ready_progress :
      (db_now app_now : ℕ) (owner id : Text) (w : World orm.Env) (a e : WelcomeMailOutbox)
      → find (has_id id) w.db.outbox ≡ some a
      → find (has_id id) (ready_entries db_now relay_batch_size w.db.outbox) ≡ some e
      → let o = relay_ready orm queue time db_now app_now owner w in
        (o.0 ≡ returned tt)
        × (find (has_id id) o.1.db.outbox
            ≡ some (dispatch (time e.id) (claim owner (app_now + lease_duration_ms) e)))
  unfolding relay_ready claim
  relay_ready_progress db_now app_now owner id w a e h k =
      let claimed = claim owner (app_now + lease_duration_ms) in
      let entries = map claimed (ready_entries db_now relay_batch_size w.db.outbox) in
      let returns =
        after-returns (claim_ready orm db_now app_now owner relay_batch_size w)
          (claimed_entries owner entries) (relay_entries orm queue time) tt
          (claim_ready-returns db_now app_now owner w)
          (relay_entries-returns (claimed_entries owner entries)) in
      let found =
        find-map (has_id id) claimed (ready_entries db_now relay_batch_size w.db.outbox) (λ x. refl)
          k in
      let relayed =
        relay_ready_returned orm queue time db_now app_now owner w
          (relay_ready orm queue time db_now app_now owner w).1
          (ap (λ r. (r, (relay_ready orm queue time db_now app_now owner w).1)) returns) in
      let saved = save_entries-find id entries w.db.outbox a (claimed e) h found in
      let same : id ≡ e.id = sym (
        (==_iff e.id id).0
          (find-some (has_id id) (ready_entries db_now relay_batch_size w.db.outbox) k)) in
      let there : any (λ x. WelcomeMailOutbox.id x == e.id) entries ≡ true =
        subst (λ i. any (has_id i) entries ≡ true) same (find-any (has_id id) entries found) in
      (
        returns,
        ap (λ d. find (has_id id) (Db.outbox d)) relayed
            ∙ mark_all-find time orm queue id (claimed_entries owner entries)
                (save_entries entries w.db.outbox) (claimed e) saved
            ∙ ap some (marked-dispatched time owner entries (claimed e) refl there),
      )
