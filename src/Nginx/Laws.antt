-- ===== src/Nginx/Laws.antt =====
-- What putting a site's configuration in place touches.
pub mod Placing
