-- ===== src/Worker.antt =====
-- The worker service: internal/worker/service/calculator.go and
-- internal/worker/grpc_handler/worker_server.go, one child each, and their laws.
pub mod Calculator
pub mod Server
pub mod Operators
pub mod Calculations
pub mod Answers
pub mod Sample
mod Tests
