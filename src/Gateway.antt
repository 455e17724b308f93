-- ===== src/Gateway.antt =====
-- src/mergemate/infrastructure/llm/gateway.py.
pub mod Retry
pub mod Parallel
