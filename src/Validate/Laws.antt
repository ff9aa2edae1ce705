-- ===== src/Validate/Laws.antt =====
-- What the validators accept.
pub mod Names
pub mod Domains
