-- ===== src/Admin.antt =====
-- src/admin: what administrators record, correct and configure.
pub mod ManualAcceptance
pub mod Rows
pub mod Body
pub mod Audiences
pub mod DocumentTypes
pub mod Templates
