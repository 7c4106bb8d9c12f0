-- ===== src/Domain.antt =====
-- src/domain: the pure core. Types and error codes first, then one module for each file of rules.
pub mod Errors
pub mod Types
pub mod Lifecycle
pub mod Consent
pub mod Keys
pub mod Compliance
pub mod Links
pub mod Customers
pub mod EmailTemplate
