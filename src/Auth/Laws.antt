-- ===== src/Auth/Laws.antt =====
-- What sessions, guards and tables of the panel promise.
pub mod Guards
pub mod Codes
pub mod Schema
pub mod Keeping
pub mod Histories
pub mod Lasting
pub mod Login
pub mod Grants
pub mod Scope
pub mod Roles
