-- ===== src/Runtime.antt =====
-- monitor_agent/runtime.py: collection, ordered replay, delivery and shutdown.
pub mod World
pub mod Cycle
pub mod Loop
pub mod Acknowledged
pub mod Bounded
pub mod Order
pub mod Accounted
pub mod Deadlines
mod Grows
pub mod Lifetime
pub mod Shutdown
unfoldable pub use World.*
unfoldable pub use Cycle.*
unfoldable pub use Loop.*
