-- ===== src/Orchestrator.antt =====
-- monitor_agent/orchestrator.py: the collectors run side by side until a deadline.
pub mod Collect
pub mod Isolated
unfoldable pub use Collect.*
