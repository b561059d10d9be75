-- ===== src/Discovery/Types.antt =====
-- internal/discovery/discovery.go: the records of the discovery report.
use mavlink_doctor.Common.{ℕ, Bool, Option, List, Bytes}
use mavlink_doctor.Common.Int.{ℤ}

pub record InterfaceInfo : Type 0 where
  pub name : Bytes
  pub index : ℕ
  pub mtu : ℕ
  pub flags : Bytes
  pub addresses : List Bytes
  pub ipv4_bind : List Bytes

pub record SocketInfo : Type 0 where
  pub protocol : Bytes
  pub local_addr : Bytes
  pub foreign_addr : Bytes
  pub pid : Bytes
  pub process : Bytes
  pub raw : Bytes

pub record RouteResult : Type 0 where
  pub target_host : Bytes
  pub target_port : Bytes
  pub interface : Bytes
  pub gateway : Bytes
  pub is_direct : Bool
  pub route_output : Bytes
  pub ping_responded : Bool
  pub ping_output : Bytes
  pub ping_duration : ℕ

pub record PortStatus : Type 0 where
  pub port : ℤ
  pub protocol : Bytes
  pub available : Bool
  pub bound_sockets : List SocketInfo
  pub bind_test_ok : Bool
  pub bind_error : Bytes
  pub ephemeral_test : Bytes

pub record DiscoveryReport : Type 0 where
  pub timestamp : ℕ
  pub os : Bytes
  pub arch : Bytes
  pub interfaces : List InterfaceInfo
  pub udp_sockets : List SocketInfo
  pub port_status : Option PortStatus
  pub route : Option RouteResult
  pub serial_candidates : List Bytes
  pub subnet_probe : List Bytes
