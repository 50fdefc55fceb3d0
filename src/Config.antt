-- ===== src/Config.antt =====
-- The configuration that the program reads from its environment (config/, jobs/redis-database.ts,
-- database/database-reset-config.ts).
pub mod Values
pub mod Database
pub mod Reset
