-- ===== src/Api.antt =====
-- The HTTP API of the controller (internal/controller/api).
pub mod Accounts
pub mod Auth
pub mod Downloads
pub mod Nodes
pub mod Settings
pub mod Admin
