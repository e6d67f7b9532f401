-- ===== src/Cli.antt =====
-- monitor_agent/cli.py: the commands and their exit codes.
pub mod Command
pub mod Exits
pub mod Accepted
