-- ===== src/Tasks.antt =====
-- backend/app/services/tasks.py: tasks, their executors and the status that these add up to.
pub mod Service
pub mod Status
pub mod Reassign
pub mod Rows
pub mod Update
pub mod Numbers
