-- ===== src/Tests.antt =====
-- The theorems at concrete inputs, and runs of the models.
pub mod Data
pub mod MetricsTests
pub mod DecoderTests
pub mod DiscoveryTests
pub mod TransportTests
pub mod ProgramTests
pub mod VersionTests
pub mod HostTests
pub mod LsofTests
pub mod RunTests
pub mod ReportTests
pub mod SimulatorTests
