-- ===== src/Cli.antt =====
-- src/mergemate/cli.py.
pub mod Shell
pub mod Sessions
pub mod Polls
pub mod Ages
pub mod Searches
pub mod Probes
pub mod Prints
pub mod Commands
pub mod Runs
