-- ===== src/Logging.antt =====
-- monitor_agent/logging_setup.py: the redaction of log records and the handlers of the agent.
pub mod Scan
pub mod Redact
pub mod Marked
pub mod Hidden
pub mod Setup
