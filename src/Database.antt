-- ===== src/Database.antt =====
-- The database (internal/database): its tables, the queries of internal/database/gen, and the two
-- procedures over them, node offline and node reconciliation.
pub mod Model
pub mod Jobs
pub mod Batches
pub mod Uploads
pub mod Downloads
pub mod Nodes
pub mod Settings
pub mod NodeStatus
pub mod Lifecycle
pub mod Stats
