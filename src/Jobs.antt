-- ===== src/Jobs.antt =====
-- The welcome mail (jobs/): the store of its outbox and the relay to the queue.
pub mod Outbox
pub mod Relay
pub mod Runner
pub mod WelcomeMailQueue
