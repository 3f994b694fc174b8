-- ===== src/Storage.antt =====
-- Package storage (internal/core/storage): URIs, the HTTP Range header and the providers.
pub mod Uri
pub mod Range
pub mod Path
pub mod Rclone
