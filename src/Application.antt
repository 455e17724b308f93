-- ===== src/Application.antt =====
-- The application layer: src/mergemate/application.
pub mod Tools
pub mod Worker
pub mod Orchestrator
pub mod Handlers
pub mod FinalResult
pub mod Delivery
pub mod Submission
pub mod Learning
pub mod Planning
pub mod Prompts
pub mod RunStatus
pub mod Documents
pub mod Stages
pub mod Validation
