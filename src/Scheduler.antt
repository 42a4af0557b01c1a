-- ===== src/Scheduler.antt =====
-- The reminders of scheduler.py.
pub mod Reminders
pub mod Ticks
mod Tests
