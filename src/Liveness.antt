-- ===== src/Liveness.antt =====
-- Whether a face is a live one (app/services/liveness.py, app/services/antispoof.py). A score, and
-- whatever numpy and OpenCV measure, is an integer in millionths.
pub mod Vision
pub mod Blocks
pub mod Blink
pub mod Checks
pub mod Watch
pub mod AntiSpoof
pub mod Detector
pub mod Total
pub mod Verdict
pub mod Fallback
pub mod Tests
