-- ===== src/Jobs/Runner/Laws.antt =====
-- Runs of the relay never overlap, and none uses a queue that has been closed.
use nest_js_tutorial.Base.{ℕ, ◌≡◌, refl, Bool, true, false, arith}
use nest_js_tutorial.Jobs.Runner.{
  Runner, relay_once, settle, on_application_bootstrap, begin_shutdown, close_queue, Move,
  bootstrapped, fired, ended, stopped, closed, Reached, started, moved,
}

abbrev pub one_if : Bool → ℕ
one_if true = 1
one_if false = 0

abbrev pub implies : Bool → Bool → Bool
implies true b = b
implies false b = true

abbrev pub negated : Bool → Bool
negated true = false
negated false = true

record IsOrderly (r : Runner) : Type 0 where
  counted : r.runs ≡ one_if r.relay_promise
  no_timer : implies r.is_stopping (negated r.timer) ≡ true
  no_run : implies r.is_closed (negated r.relay_promise) ≡ true
  stopping : implies r.is_closed r.is_stopping ≡ true

Move-IsOrderly : (r r' : Runner) → Move r r' → IsOrderly r → IsOrderly r'
unfolding relay_once settle on_application_bootstrap begin_shutdown close_queue
Move-IsOrderly r _ (bootstrapped _ h) i = record {
  counted = i.counted;
  no_timer = ground (arith, i.no_timer);
  no_run = i.no_run;
  stopping = i.stopping;
}
Move-IsOrderly r _ (fired _ h) i = record {
  counted = ground (arith, i.counted);
  no_timer = ground (arith, i.no_timer);
  no_run = ground (arith, i.no_run, i.no_timer, i.stopping);
  stopping = ground (arith, i.stopping);
}
Move-IsOrderly r _ (ended _ h) i = record {
  counted = ground (arith, i.counted);
  no_timer = i.no_timer;
  no_run = ground (arith, i.no_run);
  stopping = i.stopping;
}
Move-IsOrderly r _ (stopped _) i = record {
  counted = i.counted;
  no_timer = refl;
  no_run = i.no_run;
  stopping = ground (arith, i.stopping);
}
Move-IsOrderly r _ (closed _ h k) i = record {
  counted = i.counted;
  no_timer = i.no_timer;
  no_run = ground (arith);
  stopping = ground (arith, i.stopping);
}

Reached-IsOrderly : (r : Runner) → Reached r → IsOrderly r
Reached-IsOrderly _ started = record {
  counted = refl;
  no_timer = refl;
  no_run = refl;
  stopping = refl;
}
Reached-IsOrderly _ (moved r r' before move) = Move-IsOrderly r r' move (Reached-IsOrderly r before)

-- In every state that the runner can reach, at most one run of the relay is under way, and it is the
-- one whose promise is kept; once the shutdown has begun no timer is set, and once the queue is closed
-- no run is under way.
pub runner_lem :
    (r : Runner)
    → Reached r
    → (r.runs ≡ one_if r.relay_promise)
      × (implies r.is_stopping (negated r.timer) ≡ true)
      × (implies r.is_closed (negated r.relay_promise) ≡ true)
runner_lem r h = let i = Reached-IsOrderly r h in (i.counted, i.no_timer, i.no_run)
