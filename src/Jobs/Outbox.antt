-- ===== src/Jobs/Outbox.antt =====
-- TypeOrmWelcomeMailOutboxStore (jobs/welcome-mail-outbox-store.ts).
pub mod Steps
pub mod Lookup
pub mod Laws
use nest_js_tutorial.Base.{
  ℕ, ◌+◌, Bool, true, false, not, ◌&&◌, ◌||◌, Option, none, some, Text, ◌==◌, leb, List, [], ◌∷◌,
  map, take, find, select, same_option, if◌then◌else◌,
}
use nest_js_tutorial.Runtime.{Outcome, returned, M, pure, ◌>>=◌, ◌>>◌}
use nest_js_tutorial.Database.{
  Db, WelcomeMailOutbox, OutboxStatus, pending, dispatching, dispatched, Orm, World, query, command,
}

-- ClaimedWelcomeMailOutbox
pub record ClaimedWelcomeMailOutbox : Type 0 where
  pub email : Text
  pub id : Text
  pub lease_owner : Text
  pub username : Text

abbrev pub lease_duration_ms : ℕ
lease_duration_ms = 30000

abbrev pub is_none : Option ℕ → Bool
is_none none = true
is_none (some t) = false

-- `column IS NULL OR column <= now()`
abbrev pub is_null_or_past : Option ℕ → ℕ → Bool
is_null_or_past none now = true
is_null_or_past (some t) now = leb t now

-- The WHERE clause of claimReady. Rows that another transaction has locked are skipped; here an
-- operation runs alone.
unfoldable pub is_ready : ℕ → WelcomeMailOutbox → Bool
is_ready now e =
    is_none e.dispatched_at && leb e.available_at now && is_null_or_past e.lease_expires_at now

-- `orderBy('outbox.created_at', 'ASC')`
unfoldable pub insert_by_creation :
    WelcomeMailOutbox → List WelcomeMailOutbox → List WelcomeMailOutbox
insert_by_creation e [] = e ∷ []
insert_by_creation e (f ∷ fs) =
    if leb e.created_at f.created_at then e ∷ f ∷ fs else f ∷ insert_by_creation e fs

unfoldable pub order_by_creation : List WelcomeMailOutbox → List WelcomeMailOutbox
order_by_creation [] = []
order_by_creation (e ∷ es) = insert_by_creation e (order_by_creation es)

-- The query of claimReady.
unfoldable pub ready_entries : ℕ → ℕ → List WelcomeMailOutbox → List WelcomeMailOutbox
unfolding is_ready order_by_creation insert_by_creation
ready_entries now limit rows = take limit (order_by_creation (select (is_ready now) rows))

-- The body of the loop over the entries.
unfoldable pub claim : Text → ℕ → WelcomeMailOutbox → WelcomeMailOutbox
claim lease_owner lease_expires_at e = record e {
  attempt_count = e.attempt_count + 1;
  lease_owner = some lease_owner;
  lease_expires_at = some lease_expires_at;
  status = dispatching;
}

abbrev pub written : WelcomeMailOutbox → Option WelcomeMailOutbox → WelcomeMailOutbox
written row none = row
written row (some e) = e

-- `manager.save(entries)`: the rows with the ids of the entries take their values.
unfoldable pub save_entries :
    List WelcomeMailOutbox → List WelcomeMailOutbox → List WelcomeMailOutbox
save_entries entries rows =
    map
      (λ row. written row (find (λ e. WelcomeMailOutbox.id e == WelcomeMailOutbox.id row) entries))
      rows

-- `where('id = :outboxId AND lease_owner = :leaseOwner')`
abbrev pub is_leased_by : Text → Text → WelcomeMailOutbox → Bool
is_leased_by id owner e = e.id == id && same_option e.lease_owner (some owner)

abbrev pub dispatch : ℕ → WelcomeMailOutbox → WelcomeMailOutbox
dispatch now e = record e {
  dispatched_at = some now;
  lease_expires_at = none;
  lease_owner = none;
  status = dispatched;
}

abbrev pub make_available : ℕ → WelcomeMailOutbox → WelcomeMailOutbox
make_available now e = record e {
  available_at = now;
  lease_expires_at = none;
  lease_owner = none;
  status = pending;
}

-- The statements of markDispatched and of release.
unfoldable pub mark_rows : ℕ → Text → Text → List WelcomeMailOutbox → List WelcomeMailOutbox
mark_rows now id owner = map (λ e. if is_leased_by id owner e then dispatch now e else e)

unfoldable pub release_rows : ℕ → Text → Text → List WelcomeMailOutbox → List WelcomeMailOutbox
release_rows now id owner = map (λ e. if is_leased_by id owner e then make_available now e else e)

-- The entries as the relay gets them.
unfoldable pub claimed_entries : Text → List WelcomeMailOutbox → List ClaimedWelcomeMailOutbox
claimed_entries owner = map (λ e. record {
  email = WelcomeMailOutbox.email e;
  id = WelcomeMailOutbox.id e;
  lease_owner = owner;
  username = WelcomeMailOutbox.username e;
})

module _ (orm : Orm) where
  -- claimReady, at the times of the database and of the application.
  unfoldable pub claim_ready : ℕ → ℕ → Text → ℕ → M (World orm.Env) (List ClaimedWelcomeMailOutbox)
  unfolding ready_entries claim save_entries claimed_entries
  claim_ready db_now app_now owner limit = orm.transaction (do
    entries ← orm.execute (query (λ d. ready_entries db_now limit (Db.outbox d)))
    let claimed = map (claim owner (app_now + lease_duration_ms)) entries
    orm.execute (command (λ d. record d { outbox = save_entries claimed d.outbox }))
    pure (claimed_entries owner claimed))

  -- markDispatched
  unfoldable pub mark_dispatched : ℕ → Text → Text → M (World orm.Env) (Unit {0})
  unfolding mark_rows
  mark_dispatched now id owner =
      orm.execute (command (λ d. record d { outbox = mark_rows now id owner d.outbox }))

  unfoldable pub release : ℕ → Text → Text → M (World orm.Env) (Unit {0})
  unfolding release_rows
  release now id owner =
      orm.execute (command (λ d. record d { outbox = release_rows now id owner d.outbox }))
