-- ===== src/Node.antt =====
-- What runs beside the engines on a node: the tracker and the poll of the status loop, and the node server.
pub mod Tracker
pub mod Poll
pub mod Server
pub mod Remote
