-- ===== src/Database.antt =====
-- The PostgreSQL database: its tables (Schema), and the driver that runs statements and
-- transactions (Driver), which is not part of the repository and enters as a parameter.
mod Schema
mod Driver
pub mod Reliable
pub mod Transactions
pub mod Statements
pub mod Steps
pub mod ReadOnly
pub use Schema.*
pub use Driver.*
