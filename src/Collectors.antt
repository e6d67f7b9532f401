-- ===== src/Collectors.antt =====
-- monitor_agent/collectors/__init__.py and base.py: the collectors of the agent, in their order.
pub mod Registry
pub mod Fields
pub mod Sections
