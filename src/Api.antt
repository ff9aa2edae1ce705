-- ===== src/Api.antt =====
-- internal/api: handlers of sites, behind their guards.
pub mod SiteFiles
pub mod Confined
pub mod Laws
