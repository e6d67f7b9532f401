-- ===== src/Network.antt =====
-- monitor_agent/collectors/network.py: the adapters, the counters and the connections.
pub mod Records
pub mod Collect
pub mod Adapters
