-- ===== src/Orchestrator.antt =====
-- The orchestrator service: internal/orchestrator.
pub mod Ast
pub mod Evaluator
pub mod Repository
pub mod Messages
pub mod Server
