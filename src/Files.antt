-- ===== src/Files.antt =====
-- internal/files/files.go: the file manager of a site.
pub mod Resolve
pub mod Sort
pub mod Manage
pub mod Upload
pub mod Edit
pub mod Archive
pub mod Operations
