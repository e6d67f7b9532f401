-- ===== src/Software.antt =====
-- monitor_agent/collectors/software.py: the inventory of installed software, with its cache.
pub mod Inventory
unfoldable pub use Inventory.*
