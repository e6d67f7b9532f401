-- ===== src/Tests.antt =====
-- Concrete parameters, and the properties at concrete inputs.
pub mod Numbers
mod Agent
mod Sending
mod Gathering
mod Settings
mod Keeping
mod Spooling
mod Commands
unfoldable pub use Numbers.*
mod Logs
mod Registry
mod Evicting
