-- ===== src/Api.antt =====
-- Properties of the whole interface, across the controllers and services.
pub mod Reads
