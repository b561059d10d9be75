-- ===== src/Reporter.antt =====
-- internal/reporter: the diagnostic result.
pub mod Result
pub mod Status
pub mod Redact
pub mod Terminal
pub mod Export
