-- ===== src/Transport.antt =====
-- monitor_agent/transport.py: delivery of one event with bounded retries.
pub mod Delivery
pub mod Delay
pub mod Status
pub mod BadDate
pub mod Retry
pub mod Sleeps
pub mod Honoured
unfoldable pub use Delivery.*
unfoldable pub use Delay.*
