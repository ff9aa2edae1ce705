-- ===== src/Auth.antt =====
-- Who may use the panel: internal/store/auth.go (Accounts), internal/auth/totp.go (Totp), internal/api/auth.go
-- (Handlers, Users) and the route table of internal/api/api.go (Routes).
pub mod Accounts
pub mod Totp
pub mod Handlers
pub mod Users
pub mod Routes
pub mod Events
pub mod Laws
