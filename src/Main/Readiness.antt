-- ===== src/Main/Readiness.antt =====
-- Which valid configurations cmd/mavlink-doctor/main.go starts a node for.
use mavlink_doctor.Common.{
  ◌≡◌, refl, sym, ◌∙◌, inl, inr, Bool, true, false, not, ◌&&◌, ◌||◌, [], Bytes, bytes_eq, Bytes-Eq,
  ◌==◌, arith, codes, Result, ok, err, Bool-cases, eq_of_==, ==_refl, if◌then◌else◌,
}
use mavlink_doctor.Cli.Flags.{Config, is_transport, is_mode, is_dialect}
use mavlink_doctor.Cli.Validity.{IsValid}
use mavlink_doctor.Decoder.Dialects.{get_dialect}
use mavlink_doctor.Transport.Endpoints.{
  EndpointOptions, Endpoint, EndpointError, create_serial, create_endpoint,
}
use mavlink_doctor.Main.Setup.{
  select_transport, select_mode, endpoint_options, setup_dialect, setup_endpoint, setup,
}

abbrev pub succeeds : {E A : Type 0} → Result E A → Bool
succeeds (ok a) = true
succeeds (err e) = false

-- A serial endpoint lacks its device, or the automatic mode takes it for a server.
abbrev pub serial_fails : Config → Bool
serial_fails c =
    c.transport == codes "serial"
    && ((c.mode == codes "auto" && c.address == []) || c.serial_device == [])

dialect_known : (d : Bytes) → is_dialect d ≡ true → succeeds (get_dialect d) ≡ true
unfolding get_dialect
dialect_known d h = ground arith

setup_succeeds :
    (c : Config) (r : Result EndpointError Endpoint)
    → is_dialect c.dialect ≡ true
    → succeeds (setup_endpoint c r) ≡ succeeds r
unfolding setup_endpoint setup_dialect
setup_succeeds c (err e) h = refl
setup_succeeds c (ok endpoint) h = ground (arith, dialect_known c.dialect h)

serial_succeeds :
    (o : EndpointOptions)
    → succeeds (create_serial o)
      ≡ ((o.mode == codes "client" || o.mode == codes "auto") && not (o.serial_device == []))
unfolding create_serial
serial_succeeds o = ground arith

different : (t a b : Bytes) → (t == a) ≡ true → (a == b) ≡ false → (t == b) ≡ false
different t a b h n = rw (eq_of_== t a h) n

udp_no_serial : (codes "udp" == codes "serial") ≡ false
unfolding codes bytes_eq
udp_no_serial = refl

tcp_no_serial : (codes "tcp" == codes "serial") ≡ false
unfolding codes bytes_eq
tcp_no_serial = refl

auto_no_serial : (codes "auto" == codes "serial") ≡ false
unfolding codes bytes_eq
auto_no_serial = refl

serial_no_auto : (codes "serial" == codes "auto") ≡ false
unfolding codes bytes_eq
serial_no_auto = refl

udp_no_auto : (codes "udp" == codes "auto") ≡ false
unfolding codes bytes_eq
udp_no_auto = refl

client_no_auto : (codes "client" == codes "auto") ≡ false
unfolding codes bytes_eq
client_no_auto = refl

server_no_client : (codes "server" == codes "client") ≡ false
unfolding codes bytes_eq
server_no_client = refl

server_no_auto : (codes "server" == codes "auto") ≡ false
unfolding codes bytes_eq
server_no_auto = refl

-- Of the known transports, only the serial one can fail.
endpoint_succeeds :
    (o : EndpointOptions)
    → is_transport o.transport ≡ true
    → (o.transport == codes "auto") ≡ false
    → succeeds (create_endpoint o)
      ≡ (if o.transport == codes "serial" then succeeds (create_serial o) else true)
unfolding create_endpoint
endpoint_succeeds o h n = ground (
  arith,
  different o.transport (codes "udp") (codes "serial"),
  different o.transport (codes "tcp") (codes "serial"),
  udp_no_serial,
  tcp_no_serial,
)

select_transport-known :
    (c : Config)
    → is_transport c.transport ≡ true
    → (is_transport (select_transport c) ≡ true) × (select_transport c == codes "auto" ≡ false)
unfolding select_transport
select_transport-known c h = elim (Bool-cases (c.transport == codes "auto")) [
  | inl p ↦ rw p (rw (udp_no_auto, ==_refl (codes "udp")) (refl, refl))
  | inr q ↦ rw q (h, q)
]

select_serial :
    (c : Config) → (select_transport c == codes "serial") ≡ (c.transport == codes "serial")
unfolding select_transport
select_serial c = elim (Bool-cases (c.transport == codes "auto")) [
  | inl p ↦
      rw p (
        udp_no_serial
        ∙ sym (different c.transport (codes "auto") (codes "serial") p auto_no_serial))
  | inr q ↦ rw q
]

-- The mode that a serial configuration ends with is accepted unless it is automatic without address.
select_mode-serial :
    (c : Config)
    → is_mode c.mode ≡ true
    → (c.transport == codes "serial") ≡ true
    → (c.mode == codes "server") ≡ false
    → (select_mode c == codes "client" || select_mode c == codes "auto")
      ≡ not (c.mode == codes "auto" && c.address == [])
unfolding select_mode
select_mode-serial c h t n =
    let explicit = different c.transport (codes "serial") (codes "auto") t serial_no_auto in
    elim (Bool-cases (c.mode == codes "auto")) [
      | inl p ↦ elim (Bool-cases (c.address == [])) [
        | inl q ↦ rw (explicit, p, q, server_no_client, server_no_auto)
        | inr q ↦ rw (explicit, p, q) (rw (==_refl (codes "client")) refl)
      ]
      | inr p ↦ rw (explicit, p) (ground arith)
    ]

-- For every valid configuration, the setup gives a node unless the transport is serial and either no
-- serial device is named, or the mode is automatic and no address is given; an unknown dialect or an
-- unsupported transport is never the reason.
pub setup_ready : (c : Config) → IsValid c → succeeds (setup c) ≡ not (serial_fails c)
unfolding setup endpoint_options
setup_ready c (t, m, d, _, s, _, _) =
    let (known, named) = select_transport-known c t in
    setup_succeeds c (create_endpoint (endpoint_options c)) d
    ∙ endpoint_succeeds (endpoint_options c) known named
    ∙ elim (Bool-cases (c.transport == codes "serial")) [
      | inl p ↦
          ground
            (arith, select_serial c, serial_succeeds (endpoint_options c), select_mode-serial c m p)
      | inr q ↦ rw (select_serial c, q)
    ]
