-- ===== src/Vhost.antt =====
-- internal/webserver: how the text of a site's nginx configuration is made.
pub mod Processors
pub mod Template
pub mod Blanks
pub mod Types
