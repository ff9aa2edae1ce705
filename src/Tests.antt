-- ===== src/Tests.antt =====
-- Concrete inputs: a machine to run the models on, and the theorems at work.
pub mod Machine
pub mod Files
pub mod Web
pub mod Site
pub mod Texts
pub mod Auth
pub mod Hosting
pub mod Sites
