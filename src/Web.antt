-- ===== src/Web.antt =====
-- internal/api: the wrapper around the panel's HTTP handler (middleware.go).
pub mod Limiter
pub mod Middleware
