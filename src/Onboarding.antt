-- ===== src/Onboarding.antt =====
-- customers/customer-admin.service.ts: the administration of customers, which rolls the versions of their
-- audiences out to them.
pub mod Checks
pub mod Imports
pub mod Signing
pub mod Rollout
pub mod Creation
pub mod Inbound
pub mod Listing
