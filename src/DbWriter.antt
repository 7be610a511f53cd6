-- ===== src/DbWriter.antt =====
-- frontend/services/db_writer.py: jobs, the queue of the writer thread, and the thread's loop.
pub mod Queue
pub mod Thread
pub mod Rows
pub mod Schedules
