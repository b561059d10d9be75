-- ===== src/Main.antt =====
-- cmd/mavlink-doctor/main.go: the setup of the MAVLink test and its event loop.
pub mod Setup
pub mod Readiness
pub mod EventLoop
pub mod Calls
pub mod Totals
pub mod Announcements
pub mod Silence
pub mod World
pub mod Program
