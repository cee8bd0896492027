-- ===== src/Integrations.antt =====
-- integrations/: the server integrations of net/http and gRPC, and the zerolog writer.
pub mod Tracker
pub mod Zerolog
pub mod Rules
pub mod Report
pub mod Middleware
pub mod Grpc
pub mod Slog
pub mod Zap
