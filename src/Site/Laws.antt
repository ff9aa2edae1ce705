-- ===== src/Site/Laws.antt =====
-- What creating and deleting a site guarantee.
pub mod Sweep
pub mod Recreate
pub mod Swap
pub mod Checks
pub mod Commands
