-- ===== src/Discovery.antt =====
-- internal/discovery: what the program finds out about the host and the network.
pub mod Types
pub mod Subnet
pub mod Ports
pub mod Sockets
pub mod Routing
pub mod Serial
pub mod Probe
pub mod Interfaces
