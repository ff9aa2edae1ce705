-- ===== src/Site.antt =====
-- internal/site/creator and what it drives: how a site comes and goes.
--
-- The dry-run mode of system.Runner is off, and the structured log is left out.
pub mod Spec
pub mod Users
pub mod Pools
pub mod Units
pub mod Steps
pub mod Preflight
pub mod Create
pub mod Delete
pub mod Laws
