-- ===== src/Grpc.antt =====
-- The controller's handlers for workers (internal/controller/grpc/handlers.go).
pub mod Handlers
pub mod Statuses
