-- ===== src/Processes.antt =====
-- monitor_agent/collectors/processes.py: the processes by memory, with their secrets masked.
pub mod Redact
pub mod Collect
pub mod Secrets
pub mod Ranking
unfoldable pub use Redact.*
unfoldable pub use Collect.*
