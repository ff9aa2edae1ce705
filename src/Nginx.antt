-- ===== src/Nginx.antt =====
-- internal/webserver/webserver.go and template.go: the nginx configurations of sites and of the panel (Texts, PanelTexts,
-- Render), and what puts them in place (Manager).
pub mod Texts
pub mod PanelTexts
pub mod Render
pub mod Manager
pub mod Laws
