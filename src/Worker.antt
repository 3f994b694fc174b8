-- ===== src/Worker.antt =====
-- The worker (internal/worker): what it does with the controller's answers.
pub mod Reconcile
pub mod Sink
pub mod Heartbeat
