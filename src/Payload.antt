-- ===== src/Payload.antt =====
-- monitor_agent/payload.py: one event, built from a batch of collector results.
pub mod Build
pub mod Sections
pub mod Deliverable
unfoldable pub use Build.*
