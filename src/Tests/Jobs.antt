-- ===== src/Tests/Jobs.antt =====
-- The outbox of the welcome mail.
use nest_js_tutorial.Base.{
  ◌≡◌, ◌+◌, true, refl, codes, none, some, List, [], ◌∷◌, map, find, select, count, ◌==◌, All,
  arith,
}
use nest_js_tutorial.Runtime.{returned}
use nest_js_tutorial.Database.{WelcomeMailOutbox, pending, dispatched, World}
use nest_js_tutorial.Database.Reliable.{steady_orm, steady_orm-IsReliable}
use nest_js_tutorial.Jobs.Outbox.{
  dispatch, lease_duration_ms, ready_entries, claim, save_entries, is_ready, order_by_creation,
  insert_by_creation, mark_rows,
}
use nest_js_tutorial.Jobs.Outbox.Steps.{
  claimed, Reachable, initially, next, IsConsistent, IsStored, HasUniqueIds,
}
use nest_js_tutorial.Jobs.Outbox.Laws.{outbox-IsConsistent, claim-keeps, dispatched_stays}
use nest_js_tutorial.Jobs.Relay.{Queue, relay_ready}
use nest_js_tutorial.Jobs.Relay.Accepted.{IsAccepted, relay_ready_accepted}
use nest_js_tutorial.Jobs.Relay.Progress.{has_id, relay_ready_progress}
use nest_js_tutorial.Jobs.Runner.{
  Runner, new_runner, relay_once, on_application_bootstrap, begin_shutdown, bootstrapped, fired,
  stopped, Reached, started, moved,
}
use nest_js_tutorial.Jobs.Runner.Laws.{one_if, implies, negated, runner_lem}
use nest_js_tutorial.Tests.Data.{sample}

abbrev waiting : WelcomeMailOutbox
waiting = record {
  id = codes "m1";
  user_id = codes "u1";
  email = codes "jane@example.com";
  username = codes "jane";
  status = pending;
  attempt_count = 0;
  available_at = 1;
  lease_owner = none;
  lease_expires_at = none;
  dispatched_at = none;
  created_at = 1;
}

abbrev sent : WelcomeMailOutbox
sent = record {
  id = codes "m2";
  user_id = codes "u2";
  email = codes "john@example.com";
  username = codes "john";
  status = dispatched;
  attempt_count = 1;
  available_at = 1;
  lease_owner = none;
  lease_expires_at = none;
  dispatched_at = some 3;
  created_at = 2;
}

abbrev rows : List WelcomeMailOutbox
rows = waiting ∷ sent ∷ []

abbrev after_claim : List WelcomeMailOutbox
after_claim = save_entries (map (claim (codes "o1") 30009) (ready_entries 9 20 rows)) rows

claimed_once : Reachable rows after_claim
claimed_once = next rows after_claim initially (claimed 9 30009 20 (codes "o1") rows)

outbox_example : All IsConsistent after_claim
outbox_example = outbox-IsConsistent rows after_claim claimed_once (refl, (refl, tt))

rows-HasUniqueIds : HasUniqueIds rows
unfolding count ◌==◌
rows-HasUniqueIds id = ground arith

dispatched_example : IsStored sent after_claim
unfolding find ◌==◌
dispatched_example =
    dispatched_stays rows after_claim sent 3 claimed_once rows-HasUniqueIds refl refl refl

claim_example : IsStored sent after_claim
unfolding find ◌==◌ is_ready
claim_example = claim-keeps 9 30009 20 (codes "o1") rows sent rows-HasUniqueIds refl refl

-- A queue that accepts every mail.
abbrev accepting : Queue steady_orm
accepting = record { add = λ e w. (returned tt, w); add_lem = λ e w. refl }

abbrev mailing : World (Unit {0})
mailing = record { db = record sample { outbox = rows }; env = tt }

abbrev relayed : World (Unit {0})
relayed = (relay_ready steady_orm accepting (λ id. 11) 9 9 (codes "o1") mailing).1

relay_accepted_example : IsAccepted steady_orm accepting (λ id. 11) (codes "o1") (codes "m1")
unfolding find ◌==◌ relay_ready ready_entries is_ready order_by_creation insert_by_creation select
    save_entries claim mark_rows
relay_accepted_example =
    relay_ready_accepted steady_orm accepting (λ id. 11) (codes "o1") (codes "m1") 9 9 mailing
      waiting (dispatch 11 (claim (codes "o1") (9 + lease_duration_ms) waiting)) 11 refl refl refl
      refl

relay_test : map (λ e. WelcomeMailOutbox.dispatched_at e) relayed.db.outbox ≡ some 11 ∷ some 3 ∷ []
unfolding relay_ready ready_entries is_ready order_by_creation insert_by_creation select
    save_entries claim find ◌==◌ mark_rows
relay_test = refl

relay_progress_example :
    (relay_ready steady_orm accepting (λ id. 11) 9 9 (codes "o1") mailing).0 ≡ returned tt
    × (find (has_id (codes "m1")) relayed.db.outbox
        ≡ some (dispatch 11 (claim (codes "o1") (9 + lease_duration_ms) waiting)))
unfolding find ◌==◌ ready_entries is_ready order_by_creation insert_by_creation select
relay_progress_example =
    relay_ready_progress steady_orm accepting steady_orm-IsReliable (λ id. 11) (λ e w. refl) 9 9
      (codes "o1") (codes "m1") mailing waiting waiting refl refl

-- A shutdown that begins while a run is under way.
abbrev stopping : Runner
stopping = begin_shutdown (relay_once (on_application_bootstrap new_runner))

stopping-Reached : Reached stopping
unfolding on_application_bootstrap
stopping-Reached =
    moved _ _
      (moved _ _ (moved _ _ started (bootstrapped new_runner refl))
        (fired (on_application_bootstrap new_runner) refl))
      (stopped (relay_once (on_application_bootstrap new_runner)))

runner_example :
    (stopping.runs ≡ one_if stopping.relay_promise)
    × (implies stopping.is_stopping (negated stopping.timer) ≡ true)
    × (implies stopping.is_closed (negated stopping.relay_promise) ≡ true)
runner_example = runner_lem stopping stopping-Reached
