-- ===== src/Acme/Laws.antt =====
-- What the ACME manager leaves in the table of certificates.
pub mod Tabled
pub mod Named
pub mod Kept
pub mod Saved
