-- ===== src/Common.antt =====
-- What every request shares: the filter of its errors and the log of its failures (common/).
pub mod Log
pub mod Filter
