-- ===== src/Service.antt =====
-- The download service (internal/core/service): adding, listing and deleting downloads.
pub mod Keys
pub mod Env
pub mod Add
pub mod Delete
pub mod Links
pub mod Listing
