-- ===== src/Tests.antt =====
-- Test data, tests and instances of the theorems at concrete inputs.
mod Data
mod Articles
mod Comments
mod Profiles
mod Jobs
mod Common
mod Auth
mod Sessions
mod Files
mod Reads
mod Config
mod Tags
mod Connections
mod Avatars
