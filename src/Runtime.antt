-- ===== src/Runtime.antt =====
-- What the services run on: the repositories and logs of one process, the clock, the sources of ids,
-- and calls that may throw. What is written before a `throw` stays written: there is no transaction.
mod Shared
pub mod Exec
pub mod Replies
pub mod Recorder
pub mod Audit
pub mod Files
pub use Shared.*
