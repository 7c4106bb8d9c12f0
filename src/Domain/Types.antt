-- ===== src/Domain/Types.antt =====
-- domain/types.ts and common/auth/actor.ts. A `Date` is the number of milliseconds since the epoch,
-- and is not before it; an optional field is an `Option`.
mod Enums
mod Agreement
mod Evidence
mod Log
mod Mail
pub use Enums.*
pub use Agreement.*
pub use Evidence.*
pub use Log.*
pub use Mail.*
