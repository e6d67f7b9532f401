-- ===== src/FileAudit.antt =====
-- monitor_agent/collectors/file_audit.py: the hashes of the audited files, within bounds.
pub mod Collect
pub mod Bounds
unfoldable pub use Collect.*
pub mod Walk
