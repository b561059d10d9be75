-- ===== src/Transport.antt =====
-- internal/transport: endpoints, the raw sniffer and the UDP stream server.
pub mod UdpStream
pub mod Endpoints
pub mod RawListener
