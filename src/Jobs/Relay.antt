-- ===== src/Jobs/Relay.antt =====
-- WelcomeMailOutboxRelay (jobs/welcome-mail-outbox-relay.ts). The queue (jobs/welcome-mail-queue.ts
-- over BullMQ) is a parameter, which does not touch the tables.
pub mod Laws
pub mod Progress
pub mod Accepted
use nest_js_tutorial.Base.{ℕ, ◌≡◌, refl, sym, ap, ◌∙◌, Text, List, [], ◌∷◌, map}
use nest_js_tutorial.Runtime.{
  Exception, Outcome, returned, thrown, M, pure, throw, ◌>>=◌, ◌>>◌, try_catch, after, recover,
}
use nest_js_tutorial.Runtime.Inversion.{after-returned, after-thrown}
use nest_js_tutorial.Database.{Db, WelcomeMailOutbox, Orm, World}
use nest_js_tutorial.Database.Steps.{command-returned, query-step, command-step}
use nest_js_tutorial.Database.Transactions.{transaction-returned}
use nest_js_tutorial.Jobs.Outbox.{
  ClaimedWelcomeMailOutbox, ready_entries, claim, claimed_entries, save_entries, mark_rows,
  claim_ready, mark_dispatched, release,
}

-- WelcomeMailQueue.add
pub record Queue (orm : Orm) : Type 0 where
  pub add : ClaimedWelcomeMailOutbox → M (World orm.Env) (Unit {0})
  pub add_lem : (e : ClaimedWelcomeMailOutbox) (w : World orm.Env) → (add e w).1.db ≡ w.db

abbrev pub relay_batch_size : ℕ
relay_batch_size = 20

-- `time id` is the time at which the outcome of the entry is stored.
module _ (orm : Orm) (queue : Queue orm) (time : Text → ℕ) where
  -- The `catch` block of the loop.
  unfoldable pub give_back : ClaimedWelcomeMailOutbox → M (World orm.Env) (Unit {0})
  unfolding release
  give_back entry = do
    release orm (time entry.id) entry.id entry.lease_owner
    throw (Exception.welcome_mail_outbox_relay entry.id)

  -- The loop of relayReady.
  unfoldable pub relay_entries : List ClaimedWelcomeMailOutbox → M (World orm.Env) (Unit {0})
  unfolding give_back mark_dispatched
  relay_entries [] = pure tt
  relay_entries (entry ∷ entries) = do
    try_catch (queue.add entry) (λ e. give_back entry)
    mark_dispatched orm (time entry.id) entry.id entry.lease_owner
    relay_entries entries

  -- relayReady
  unfoldable pub relay_ready : ℕ → ℕ → Text → M (World orm.Env) (Unit {0})
  unfolding claim_ready relay_entries
  relay_ready db_now app_now owner = do
    entries ← claim_ready orm db_now app_now owner relay_batch_size
    relay_entries entries
