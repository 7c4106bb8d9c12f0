-- ===== src/Mail.antt =====
-- src/plugins/email/core: which template a mail is made from, the link in it, and what the provider
-- reports of its delivery.
pub mod Delivery
pub mod PermanentLinks
pub mod Content
