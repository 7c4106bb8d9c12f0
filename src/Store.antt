-- ===== src/Store.antt =====
-- persistence/inmemory: one module for each repository. A repository is its `Map`, from ids to rows;
-- `structuredClone` keeps stored rows and returned rows apart, so rows are plain values here.
pub mod Documents
pub mod Versions
pub mod States
pub mod Acceptances
pub mod Objections
pub mod Notifications
pub mod Customers
pub mod Links
pub mod Entities
pub mod Templates
pub mod SignedDocuments
pub mod Outbound
pub mod EventLog
use clickwrap.Prelude.{String}
use clickwrap.Prelude.Dict.{Dict}

-- `new Map<string, V>()`
abbrev pub Table {ℓ} : Type ℓ → Type ℓ
Table V = Dict String V
