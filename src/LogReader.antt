-- ===== src/LogReader.antt =====
-- frontend/services/ptp_log_reader.py: the tail of ptp4l's log, and the state that it is read into.
pub mod State
pub mod Line
pub mod Tick
pub mod Run
pub mod Edges
pub mod Verdicts
pub mod Streak
pub mod Invariant
pub mod Misses
pub mod Minutes
pub mod Conservation
