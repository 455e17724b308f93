-- ===== src/Telegram.antt =====
-- src/mergemate/interfaces/telegram.
pub mod Messages
pub mod Watcher
pub mod Presenter
pub mod Lifecycle
pub mod Watchers
pub mod Commands
pub mod Approval
pub mod Prompting
