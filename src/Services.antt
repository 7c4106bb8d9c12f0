-- ===== src/Services.antt =====
-- The services: what a request or a job does with the repositories.
pub mod Acceptance
pub mod Objection
pub mod Notification
pub mod DeadlineSweeper
pub mod Publish
pub mod ActivationSweeper
pub mod Compliance
pub mod RolloutNotification
pub mod Reminder
pub mod PendingAgreements
pub mod Drafts
pub mod DocumentCreation
pub mod LegalEntities
pub mod SignedDocuments
pub mod Integration
