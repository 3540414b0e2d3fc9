-- ===== src/Detection.antt =====
-- backend/app/detection: semantics of rules, evaluation of conditions, and the engine.
pub mod Errors
pub mod Semantics
pub mod Evaluator
pub mod Engine
pub mod Loader
