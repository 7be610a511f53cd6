-- ===== src/Monitor.antt =====
-- frontend/services/system_monitor.py: the buffer of log entries.
pub mod Logs
pub mod Latest
pub mod Interfaces
pub mod Nics
pub mod Services
