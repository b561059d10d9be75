-- ===== src/Main/Program/Phases.antt =====
-- The endpoint that the MAVLink test of cmd/mavlink-doctor/main.go opens for UDP.
use mavlink_doctor.Common.{
  Bool, true, false, not, ◌&&◌, ◌||◌, Option, ◌≡◌, ◌⊎◌, inl, inr, refl, sym, ap, ◌∙◌, subst, Bytes,
  Bytes-Eq, bytes_eq, ◌==◌, codes, Result, ok, err, arith, Bool-cases, eq_of_==, if◌then◌else◌,
}
use mavlink_doctor.Cli.Flags.{Config, is_dialect}
use mavlink_doctor.Cli.Validity.{IsValid}
use mavlink_doctor.Decoder.Dialects.{Dialect, get_dialect}
use mavlink_doctor.Main.Setup.{
  Node, node_of, has_address, select_transport, select_mode, endpoint_options, setup,
  setup_endpoint, setup_dialect,
}
use mavlink_doctor.Transport.Endpoints.{
  EndpointOptions, Endpoint, custom_server, custom_client, udp_server, join_host_port,
  new_udp_stream_server, create_udp, create_endpoint,
}
use mavlink_doctor.Main.Program.Modes.{agrees}
use mavlink_doctor.Main.Program.Machine.{if_true, if_false}
use mavlink_doctor.Main.World.{takes_udp}

-- The endpoint listens at the address.
abbrev pub Listens : Bytes → Endpoint → Type 0
Listens address (custom_server a label is_datagram) = a ≡ address
Listens address (udp_server a) = a ≡ address
Listens address _ = ⊥

-- The endpoint sends to the address.
abbrev pub Connects : Bytes → Endpoint → Type 0
Connects address (custom_client a label is_datagram) = a ≡ address
Connects address _ = ⊥

select_udp : (c : Config) → takes_udp c ≡ true → select_transport c ≡ codes "udp"
unfolding select_transport
select_udp c h = elim (Bool-cases (c.transport == codes "auto")) [
  | inl p ↦ rw p
  | inr q ↦ rw q (eq_of_== c.transport (codes "udp") (ground arith))
]

create_for_udp :
    (o : EndpointOptions) → o.transport ≡ codes "udp" → create_endpoint o ≡ ok (create_udp o)
unfolding create_endpoint codes bytes_eq
create_for_udp o e = rw e

Result-cases : {E A : Type 0} (r : Result E A) → ((a : A) × (r ≡ ok a)) ⊎ ((e : E) × (r ≡ err e))
Result-cases (ok a) = inl (a, refl)
Result-cases (err e) = inr (e, refl)

dialect_known :
    (name : Bytes) → is_dialect name ≡ true → (d : Option Dialect) × (get_dialect name ≡ ok d)
unfolding get_dialect
dialect_known name h = elim (Result-cases (get_dialect name)) [
  | inl found ↦ found
  | inr (e, failed) ↦ absurd (ground arith)
]

-- The endpoint that a valid configuration of UDP ends with.
endpoint_of_udp : Config → Endpoint
endpoint_of_udp c = create_udp (endpoint_options c)

setup_udp :
    (c : Config)
    → IsValid c
    → takes_udp c ≡ true
    → (d : Option Dialect) × (setup c ≡ ok (node_of c (endpoint_of_udp c) d))
unfolding setup endpoint_of_udp endpoint_options setup_endpoint setup_dialect
setup_udp c v h =
    let (d, known) = dialect_known c.dialect v.2 in
    (
      d,
      ap (setup_endpoint c) (create_for_udp (endpoint_options c) (select_udp c h))
          ∙ ap (setup_dialect c (create_udp (endpoint_options c))) known,
    )

-- What the switch on the mode makes.
Serves : Bool → EndpointOptions → Endpoint → Type 0
Serves client o e =
    if client then Connects o.address e else Listens (join_host_port o.listen_address o.port) e

serves_client :
    (o : EndpointOptions) → (o.mode == codes "server") ≡ false → Connects o.address (create_udp o)
unfolding create_udp
serves_client o m =
    subst (Connects o.address) (sym (if_false (o.mode == codes "server") _ _ m)) refl

serves_server :
    (o : EndpointOptions)
    → (o.mode == codes "server") ≡ true
    → Listens (join_host_port o.listen_address o.port) (create_udp o)
unfolding create_udp
serves_server o m =
    subst (Listens (join_host_port o.listen_address o.port))
      (sym (if_true (o.mode == codes "server") _ _ m)) (by_stream o.stream_server)
  where
    by_stream :
        (b : Bool)
        → Listens (join_host_port o.listen_address o.port) (
            if b
            then new_udp_stream_server o.listen_address o.port
            else udp_server (join_host_port o.listen_address o.port))
    by_stream true = refl
    by_stream false = refl

serves :
    (client : Bool) (o : EndpointOptions)
    → (o.mode == codes "server") ≡ not client
    → Serves client o (create_udp o)
unfolding Serves
serves true o m = serves_client o m
serves false o m = serves_server o m

-- For every valid configuration of transport "udp" or "auto", the MAVLink test gets a node. With an
-- address, and unless the mode of "udp" is "server", its endpoint sends to this address. Otherwise it
-- listens at the listen address and port, with reassembly or without.
pub test_endpoint :
    (c : Config)
    → IsValid c
    → takes_udp c ≡ true
    → (n : Node) × (setup c ≡ ok n)
      × (if has_address c && (c.transport == codes "auto" || not (c.mode == codes "server"))
          then Connects c.address n.endpoint
          else Listens (join_host_port c.listen_address c.port) n.endpoint)
unfolding endpoint_of_udp endpoint_options Serves select_mode
test_endpoint c v h =
    let (d, made) = setup_udp c v h in
    (
      node_of c (endpoint_of_udp c) d,
      made,
      serves (has_address c && (c.transport == codes "auto" || not (c.mode == codes "server")))
          (endpoint_options c) (agrees c.transport c.mode c.address h v.1 v.5),
    )
