-- ===== src/Domain.antt =====
-- app/domain: errors, events, value objects and entities.
pub mod Errors
pub mod Email
pub mod Users
pub mod Tokens
