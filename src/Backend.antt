-- ===== src/Backend.antt =====
-- The IoT backend (backend/app.py): its tables and cache, and its request handlers.
pub mod State
pub mod Replay
pub mod Match
pub mod Results
pub mod Devices
pub mod Keys
pub mod Users
pub mod Runs
mod Tests
