-- ===== src/Jobs/Relay/Laws.antt =====
-- What a run of the relay does to the outbox.
use nest_js_tutorial.Base.{
  ℕ, ◌+◌, ◌≡◌, ◌⊎◌, refl, sym, ap, ◌∙◌, subst, inl, inr, Text, List, [], ◌∷◌, map,
}
use nest_js_tutorial.Runtime.{Exception, Outcome, returned, thrown, M, throw, ◌>>◌, after, recover}
use nest_js_tutorial.Runtime.Inversion.{after-returned}
use nest_js_tutorial.Database.{Db, WelcomeMailOutbox, Orm, World, Executed, command}
use nest_js_tutorial.Database.Steps.{query-step, command-step}
use nest_js_tutorial.Database.Transactions.{transaction-returned, transaction-thrown}
use nest_js_tutorial.Jobs.Outbox.{
  ClaimedWelcomeMailOutbox, ready_entries, claim, claimed_entries, save_entries, mark_rows,
  release_rows, lease_duration_ms, claim_ready, mark_dispatched, release,
}
use nest_js_tutorial.Jobs.Outbox.Steps.{Step, claimed, marked, released, Reachable, initially, next}
use nest_js_tutorial.Jobs.Relay.{Queue, relay_batch_size, give_back, relay_entries, relay_ready}

Reachable-trans : (a b c : List WelcomeMailOutbox) → Reachable a b → Reachable b c → Reachable a c
Reachable-trans a b _ p initially = p
Reachable-trans a b c (p) (next rows _ q step) = next rows c (Reachable-trans a b rows p q) step

Reachable-same : (a b : List WelcomeMailOutbox) → b ≡ a → Reachable a b
Reachable-same a b h = subst (Reachable a) (sym h) initially

Reachable-Step : (a b c : List WelcomeMailOutbox) → Step a b → c ≡ b → Reachable a c
Reachable-Step a b c s h = subst (Reachable a) (sym h) (next a b initially s)

module _ (orm : Orm) where
  -- However it ends, it has done steps of the outbox only.
  abbrev Steps : World orm.Env → World orm.Env → Type 0
  Steps w w' = Reachable w.db.outbox w'.db.outbox

  after-Steps :
      {A B : Type 0} (w : World orm.Env) (o : Outcome A × World orm.Env)
      (f : A → M (World orm.Env) B)
      → Steps w o.1
      → ((a : A) (t : World orm.Env) → Steps t (f a t).1)
      → Steps w (after o f).1
  after-Steps w (returned a, t) f p q = Reachable-trans _ _ _ p (q a t)
  after-Steps w (thrown e, t) f p q = p

  recover-Steps :
      {A : Type 0} (w : World orm.Env) (o : Outcome A × World orm.Env)
      (f : Exception → M (World orm.Env) A)
      → Steps w o.1
      → ((e : Exception) (t : World orm.Env) → Steps t (f e t).1)
      → Steps w (recover o f).1
  recover-Steps w (returned a, t) f p q = p
  recover-Steps w (thrown e, t) f p q = Reachable-trans _ _ _ p (q e t)

  -- A statement that writes has been carried out, or has changed no row.
  pub Executed-cases :
      (g : Db → Db) (w : World orm.Env) (o : Outcome (Unit {0}) × World orm.Env)
      → Executed (command g) w o
      → (o.1.db ≡ g w.db) ⊎ (o.1.db ≡ w.db)
  Executed-cases g w (r, w') (inl h) = inl (ap (λ x. x.1) h)
  Executed-cases g w (r, w') (inr (e, h, k)) = inr k

  Step-Steps :
      (g : List WelcomeMailOutbox → List WelcomeMailOutbox) (w : World orm.Env)
      → Step w.db.outbox (g w.db.outbox)
      → Steps w (orm.execute (command (λ d. record d { outbox = g d.outbox })) w).1
  Step-Steps g w s =
      let change : Db → Db = λ d. record d { outbox = g d.outbox } in
      elim (Executed-cases change w (orm.execute (command change) w)
        (orm.execute_lem (command change) w)) [
          | inl done ↦ Reachable-Step _ _ _ s (ap Db.outbox done)
          | inr left ↦ Reachable-same _ _ (ap Db.outbox left)
        ]

  -- What a claim has done when it has returned.
  pub claim_ready-returned :
      (db_now app_now : ℕ) (owner : Text) (limit : ℕ) (w w' : World orm.Env)
      (r : List ClaimedWelcomeMailOutbox)
      → claim_ready orm db_now app_now owner limit w ≡ (returned r, w')
      → let entries =
          map
            (claim owner (app_now + lease_duration_ms))
            (ready_entries db_now limit w.db.outbox) in
        (r ≡ claimed_entries owner entries)
        × (w'.db ≡ record w.db { outbox = save_entries entries w.db.outbox })
  unfolding claim_ready
  claim_ready-returned db_now app_now owner limit w w' r h =
      let (v, v', run, start, end) = transaction-returned orm _ w h in
      let (t, same, run) = query-step orm _ v (λ d. ready_entries db_now limit (Db.outbox d)) run in
      let entries =
        map (claim owner (app_now + lease_duration_ms)) (ready_entries db_now limit v.db.outbox) in
      let (t₂, saved, run) =
        command-step orm _ t (λ d. record d { outbox = save_entries entries d.outbox }) run in
      let ends : v' ≡ t₂ = cc in
      let shows : r ≡ claimed_entries owner entries = cc in
      let listed =
        ap
          (λ d.
            map (claim owner (app_now + lease_duration_ms))
              (ready_entries db_now limit (Db.outbox d)))
          start in
      let write : List WelcomeMailOutbox → Db → Db =
        λ es d. record d { outbox = save_entries es d.outbox } in
      (
        shows ∙ ap (claimed_entries owner) listed,
        sym end
            ∙ ap World.db ends
            ∙ saved
            ∙ ap (write entries) (same ∙ start)
            ∙ ap (λ es. write es w.db) listed,
      )

  claim_ready-Steps :
      (db_now app_now : ℕ) (owner : Text) (limit : ℕ) (w : World orm.Env)
      (o : Outcome (List ClaimedWelcomeMailOutbox) × World orm.Env)
      → claim_ready orm db_now app_now owner limit w ≡ o
      → Steps w o.1
  unfolding claim_ready
  claim_ready-Steps db_now app_now owner limit w (returned r, w') h =
      let (shows, saved) = claim_ready-returned db_now app_now owner limit w w' r h in
      Reachable-Step _ _ _ (claimed db_now (app_now + lease_duration_ms) limit owner w.db.outbox)
        (ap Db.outbox saved)
  claim_ready-Steps db_now app_now owner limit w (thrown e, w') h =
      Reachable-same _ _ (ap Db.outbox (transaction-thrown orm _ w h))

  module _ (queue : Queue orm) (time : Text → ℕ) where
    give_back-Steps :
        (entry : ClaimedWelcomeMailOutbox) (w : World orm.Env)
        → Steps w (give_back orm queue time entry w).1
    unfolding give_back release
    give_back-Steps entry w =
        after-Steps w _ _
          (Step-Steps (release_rows (time entry.id) entry.id entry.lease_owner) w
            (released (time entry.id) entry.id entry.lease_owner w.db.outbox))
          (λ _ t. initially)

    relay_entries-Steps :
        (entries : List ClaimedWelcomeMailOutbox) (w : World orm.Env)
        → Steps w (relay_entries orm queue time entries w).1
    unfolding relay_entries mark_dispatched
    relay_entries-Steps [] w = initially
    relay_entries-Steps (entry ∷ entries) w =
        let mark = mark_dispatched orm (time entry.id) entry.id entry.lease_owner in
        let rest = relay_entries orm queue time entries in
        after-Steps {A = Unit} {B = Unit} w
          (recover (queue.add entry w) (λ e. give_back orm queue time entry)) (λ _. mark >> rest)
          (recover-Steps w (queue.add entry w) (λ e. give_back orm queue time entry)
            (Reachable-same _ _ (ap Db.outbox (queue.add_lem entry w)))
            (λ e t. give_back-Steps entry t))
          (λ _ t.
            after-Steps {A = Unit} {B = Unit} t (mark t) (λ _. rest)
              (Step-Steps (mark_rows (time entry.id) entry.id entry.lease_owner) t
                (marked (time entry.id) entry.id entry.lease_owner t.db.outbox))
              (λ _ u. relay_entries-Steps entries u))

    -- However a run of the relay ends, and whatever the driver and the queue do, it has taken the
    -- outbox along steps of its life only.
    pub relay_ready-Reachable :
        (db_now app_now : ℕ) (owner : Text) (w : World orm.Env)
        → Reachable w.db.outbox (relay_ready orm queue time db_now app_now owner w).1.db.outbox
    unfolding relay_ready
    relay_ready-Reachable db_now app_now owner w =
        after-Steps w _ _ (claim_ready-Steps db_now app_now owner relay_batch_size w _ refl)
          (λ entries t. relay_entries-Steps entries t)

    -- Every entry is marked as dispatched under its own lease.
    abbrev pub mark_all :
        List ClaimedWelcomeMailOutbox → List WelcomeMailOutbox → List WelcomeMailOutbox
    mark_all [] rows = rows
    mark_all (e ∷ es) rows = mark_all es (mark_rows (time e.id) e.id e.lease_owner rows)

    abbrev pub IsRelayed : ℕ → ℕ → Text → Db → Db → Type 0
    IsRelayed db_now app_now owner d d' =
        let entries =
          map (claim owner (app_now + lease_duration_ms))
            (ready_entries db_now relay_batch_size d.outbox) in
        d' ≡ record d {
          outbox = mark_all (claimed_entries owner entries) (save_entries entries d.outbox);
        }

    added :
        (entry : ClaimedWelcomeMailOutbox) (w t : World orm.Env)
        (o : Outcome (Unit {0}) × World orm.Env)
        → queue.add entry w ≡ o
        → recover o (λ e. give_back orm queue time entry) ≡ (returned tt, t)
        → t.db ≡ w.db
    unfolding give_back
    added entry w t (returned tt, u) sent h =
        let same : t ≡ u = cc in
        ap World.db same ∙ sym (ap (λ o. World.db (o.1)) sent) ∙ queue.add_lem entry w
    added entry w t (thrown e, u) sent h =
        let (_, v, run, bad) =
          after-returned {B = Unit} (release orm (time entry.id) entry.id entry.lease_owner u)
            (λ _. throw (Exception.welcome_mail_outbox_relay entry.id)) h in
        cc

    relay_entries-returned :
        (entries : List ClaimedWelcomeMailOutbox) (w w' : World orm.Env)
        → relay_entries orm queue time entries w ≡ (returned tt, w')
        → w'.db ≡ record w.db { outbox = mark_all entries w.db.outbox }
    unfolding relay_entries mark_dispatched
    relay_entries-returned [] w w' h = let same : w' ≡ w = cc in ap World.db same
    relay_entries-returned (e ∷ es) w w' h =
        let (_, t, run, h) = after-returned _ _ h in
        let kept = added e w t _ refl run in
        let (t₂, marks, h) =
          command-step orm _ t
            (λ d. record d { outbox = mark_rows (time e.id) e.id e.lease_owner d.outbox }) h in
        let change : Db → Db =
          λ d. record d { outbox = mark_rows (time e.id) e.id e.lease_owner d.outbox } in
        let all : Db → Db = λ d. record d { outbox = mark_all es d.outbox } in
        relay_entries-returned es t₂ w' h ∙ ap all (marks ∙ ap change kept)

    -- Whatever the driver and the queue do, if a run of the relay returns then the entries that it
    -- claimed, the oldest 20 that were ready, have all been marked as dispatched under their lease, and
    -- nothing else has changed.
    pub relay_ready_returned :
        (db_now app_now : ℕ) (owner : Text) (w w' : World orm.Env)
        → relay_ready orm queue time db_now app_now owner w ≡ (returned tt, w')
        → IsRelayed db_now app_now owner w.db w'.db
    unfolding relay_ready
    relay_ready_returned db_now app_now owner w w' h =
        let (r, t, run, h) =
          after-returned (claim_ready orm db_now app_now owner relay_batch_size w)
            (relay_entries orm queue time) h in
        let (shows, saved) = claim_ready-returned db_now app_now owner relay_batch_size w t r run in
        let all : List ClaimedWelcomeMailOutbox → Db → Db =
          λ es d. record d { outbox = mark_all es d.outbox } in
        let target : Db = record w.db {
          outbox =
              save_entries
                (map (claim owner (app_now + lease_duration_ms))
                  (ready_entries db_now relay_batch_size w.db.outbox))
                w.db.outbox;
        } in
        relay_entries-returned r t w' h ∙ ap (all r) saved ∙ ap (λ es. all es target) shows
