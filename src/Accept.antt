-- ===== src/Accept.antt =====
-- src/accept: the hosted acceptance page, which a customer opens with the token of a link.
pub mod RateLimiter
pub mod Minting
