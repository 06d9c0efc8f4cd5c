-- ===== src/Attendance.antt =====
-- The attendance service (app/services/attendance.py) over its tables, and the schedules' times.
pub mod State
pub mod Status
pub mod Sessions
pub mod Stats
pub mod Ranges
pub mod Marks
pub mod Runs
mod Tests
