-- ===== src/Config.antt =====
-- monitor_agent/config.py: the settings that come from the environment.
pub mod Agent
pub mod Parse
pub mod Load
pub mod Checked
pub mod Safe
unfoldable pub use Agent.*
unfoldable pub use Parse.*
unfoldable pub use Load.*
