-- ===== src/Persistence.antt =====
-- The repositories of src/mergemate/infrastructure/persistence/sqlite_repositories.py, over
-- tables that are lists of rows.
pub mod RunRepository
pub mod JobRepository
pub mod Recent
pub mod Conversations
pub mod ToolEvents
pub mod Learnings
pub mod Knowledge
pub mod Search
pub mod Schema
pub mod MessageSearch
pub mod Fts
