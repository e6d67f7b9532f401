-- ===== src/Identity.antt =====
-- monitor_agent/identity.py: the machine's identity.
pub mod Resolve
pub mod Origin
unfoldable pub use Resolve.*
