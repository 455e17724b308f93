-- ===== src/Tooling.antt =====
-- The tools that run other programs, src/mergemate/infrastructure/tools, and the readiness endpoint of
-- src/mergemate/interfaces/telegram/health.py.
pub mod Processes
pub mod Installer
pub mod SourceControl
pub mod Registry
pub mod Health
