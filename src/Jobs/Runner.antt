-- ===== src/Jobs/Runner.antt =====
-- WelcomeMailOutboxRelayRunner (jobs/welcome-mail-outbox-relay.ts): the timer that starts runs of the
-- relay, and the shutdown, as a step relation.
pub mod Laws
use nest_js_tutorial.Base.{ℕ, suc, ◌-◌, ◌≡◌, Bool, true, false, if◌then◌else◌}

-- `relayPromise` is set; a timer is set; the shutdown has begun; the queue is closed. `runs` counts the
-- runs of the relay that have begun and have not ended.
pub record Runner : Type 0 where
  pub relay_promise : Bool
  pub timer : Bool
  pub is_stopping : Bool
  pub is_closed : Bool
  pub runs : ℕ

abbrev pub new_runner : Runner
new_runner = record {
  relay_promise = false;
  timer = false;
  is_stopping = false;
  is_closed = false;
  runs = 0;
}

-- relayOnce
unfoldable pub relay_once : Runner → Runner
relay_once r = if r.relay_promise then r else record r { relay_promise = true; runs = suc r.runs }

-- The `finally` of a run.
unfoldable pub settle : Runner → Runner
settle r = record r { relay_promise = false; runs = r.runs - 1 }

-- onApplicationBootstrap
unfoldable pub on_application_bootstrap : Runner → Runner
on_application_bootstrap r = record r { timer = true }

-- onApplicationShutdown up to its first `await`, and after it.
unfoldable pub begin_shutdown : Runner → Runner
begin_shutdown r = record r { timer = false; is_stopping = true }

unfoldable pub close_queue : Runner → Runner
close_queue r = record r { is_closed = true }

-- What can happen: NestJS calls the bootstrap before the shutdown; the timer fires while it is set; a
-- run ends, with or without an error; the shutdown goes on when the promise that it awaits has ended.
pub data Move : Runner → Runner → Type 0 where
  bootstrapped : (r : Runner) → r.is_stopping ≡ false → Move r (on_application_bootstrap r)
  fired : (r : Runner) → r.timer ≡ true → Move r (relay_once r)
  ended : (r : Runner) → r.relay_promise ≡ true → Move r (settle r)
  stopped : (r : Runner) → Move r (begin_shutdown r)
  closed : (r : Runner) → r.is_stopping ≡ true → r.relay_promise ≡ false → Move r (close_queue r)

pub data Reached : Runner → Type 0 where
  started : Reached new_runner
  moved : (r r' : Runner) → Reached r → Move r r' → Reached r'
