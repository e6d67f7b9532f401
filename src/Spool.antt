-- ===== src/Spool.antt =====
-- monitor_agent/spool.py: the records that wait for delivery.
pub mod Store
pub mod Disk
pub mod Calls
pub mod Guards
pub mod Markers
pub mod DeadLetter
pub mod Recovery
pub mod Queue
pub mod Keeps
pub mod Looking
pub mod Auxiliary
pub mod Still
pub mod Files
pub mod Learns
pub mod Seen
pub mod Held
pub mod Moved
pub mod Retained
pub mod Marking
pub mod Moving
pub mod Safe
pub mod Publishing
pub mod Kept
pub mod Roundtrip
pub mod Nested
pub mod Retention
pub mod Evicts
pub mod Listing
pub mod Retains
unfoldable pub use Store.*
