-- ===== src/Runtime.antt =====
-- How the TypeScript code runs: thrown values, responses as JSON values, and the monad of an
-- asynchronous function that reads and writes a state and may throw.
mod Values
mod Exceptions
mod Monad
pub mod Inversion
pub use Values.*
pub use Exceptions.*
pub use Monad.*
