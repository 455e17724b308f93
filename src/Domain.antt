-- ===== src/Domain.antt =====
-- The domain layer: src/mergemate/domain.
pub mod Status
pub mod Runs
pub mod Workflows
pub mod Souls
