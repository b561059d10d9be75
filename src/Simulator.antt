-- ===== src/Simulator.antt =====
-- internal/simulator/mock_server.go: the mock MAVLink sender. The node and its encoding of messages are
-- gomavlib's: the model has the messages that the loops hand to it, and takes the bytes that it writes
-- to its connection as an argument. A float32 is its bit pattern.
pub mod Ticks
pub mod Chunks
pub mod EndToEnd
use mavlink_doctor.Common.{
  Option, none, some, codes, Result, ok, err, ℕ, zero, suc, ◌+◌, ◌*◌, ◌%◌, ◌^◌, Bool, true, false,
  not, ◌&&◌, List, [], ◌∷◌, ◌++◌, Bytes, nat_eq, ltb, length, take, drop, Result, ok, err,
  if◌then◌else◌,
}
use mavlink_doctor.Common.Int.{ℤ, pos, is_positive, pos_part}

pub record MockOptions : Type 0 where
  pub target_address : Bytes
  pub is_tcp : Bool
  pub chunk_size : ℤ
  pub send_gimbal : Bool
  pub use_mavlink1 : Bool
  pub interval : ℕ
  pub system_id : ℕ
  pub component_id : ℕ
  pub autopilot : ℕ
  pub vehicle_type : ℕ

unfoldable pub default_mock_options : Bytes → MockOptions
default_mock_options target_addr = record {
  target_address = target_addr;
  is_tcp = false;
  chunk_size = pos 0;
  send_gimbal = true;
  use_mavlink1 = false;
  interval = 100000000;
  system_id = 1;
  component_id = 1;
  autopilot = 3;
  vehicle_type = 2;
}

-- The messages that are handed to `WriteMessageAll`; the constant quaternion of the gimbal status is
-- left out.
pub data Sent : Type 0 where
  heartbeat_sent : (type autopilot base_mode custom_mode system_status version : ℕ) → Sent
  attitude_sent : (time_boot_ms roll pitch yaw : ℕ) → Sent
  gimbal_sent : (target_system target_component flags : ℕ) → Sent

-- `uint32(seq * 100)`
unfoldable pub boot_time : ℕ → ℕ
boot_time seq = seq * 100 % 2 ^ 32

-- One tick of `RunMockSender`, `seq` counted up. The modes are MANUAL_INPUT_ENABLED (64) and
-- STABILIZE_ENABLED (16), the status is ACTIVE (4).
unfoldable pub tick_messages : MockOptions → ℕ → List Sent
tick_messages opts seq =
    heartbeat_sent opts.vehicle_type opts.autopilot 80 0 4 3
    ∷ attitude_sent (boot_time seq) 0x3D4CCCCD 0xBCA3D70A 0x3FC8F5C3
    ∷ (if opts.send_gimbal && nat_eq (seq % 2) 0 then gimbal_sent 255 190 1 ∷ [] else [])

-- One tick of the chunked sender.
unfoldable pub chunked_messages : MockOptions → ℕ → List Sent
chunked_messages opts seq =
    heartbeat_sent opts.vehicle_type opts.autopilot 64 0 4 3
    ∷ attitude_sent (boot_time seq) 0x3C23D70A 0x3CA3D70A 0x3CF5C28F
    ∷ []

-- What the select of a loop finds ready.
pub data Ready : Type 0 where
  done : Ready
  tick : Ready

-- The loop: `seq` is the number of ticks so far. It ends with the context, or where the list ends.
unfoldable pub tick_loop : (ℕ → List Sent) → ℕ → List Ready → List Sent
tick_loop messages seq [] = []
tick_loop messages seq (done ∷ rest) = []
tick_loop messages seq (tick ∷ rest) = messages (seq + 1) ++ tick_loop messages (seq + 1) rest

-- The endpoint and the version of the node of `RunMockSender`.
pub data MockEndpoint : Type 0 where
  tcp_client : (address : Bytes) → MockEndpoint
  udp_client : (address : Bytes) → MockEndpoint
  chunker : (address : Bytes) → MockEndpoint

pub record MockNode : Type 0 where
  pub endpoint : MockEndpoint
  pub mavlink1 : Bool
  pub out_system_id : ℕ
  pub out_component_id : ℕ

abbrev pub is_chunked : MockOptions → Bool
is_chunked opts = is_positive opts.chunk_size && not opts.is_tcp

unfoldable pub mock_node : MockOptions → MockNode
mock_node opts =
    if is_chunked opts
    then record {
      endpoint = chunker opts.target_address;
      mavlink1 = false;
      out_system_id = opts.system_id;
      out_component_id = opts.component_id;
    }
    else record {
      endpoint =
          if opts.is_tcp then tcp_client opts.target_address else udp_client opts.target_address;
      mavlink1 = opts.use_mavlink1;
      out_system_id = opts.system_id;
      out_component_id = opts.component_id;
    }

-- What the node is given to send, once it has started.
unfoldable pub sent_messages : MockOptions → List Ready → List Sent
unfolding tick_messages chunked_messages tick_loop
sent_messages opts ready =
    tick_loop (if is_chunked opts then chunked_messages opts else tick_messages opts) 0 ready

-- The error of `node.Initialize`, which only `RunMockSender` itself wraps.
abbrev pub init_error : Bool → Bytes → Bytes
init_error chunked e = if chunked then e else codes "mock node init error: " ++ e

abbrev start_node : Bool → Option Bytes → List Sent → Result Bytes (List Sent)
start_node chunked none sent = ok sent
start_node chunked (some e) sent = err (init_error chunked e)

abbrev pub dial : Option Bytes → Result Bytes (List Sent) → Result Bytes (List Sent)
dial none run = run
dial (some e) run = err e

-- `RunMockSender`. `dial_error` is the error of resolving and dialling the address, which only the
-- chunked sender does itself; `node_error` is that of the node.
unfoldable pub run_mock_sender :
    MockOptions → Option Bytes → Option Bytes → List Ready → Result Bytes (List Sent)
unfolding sent_messages
run_mock_sender opts dial_error node_error ready =
    dial (if is_chunked opts then dial_error else none)
      (start_node (is_chunked opts) node_error (sent_messages opts ready))

-- The chunk goroutine. A read from the pipe takes at most `size` bytes, and none from beyond the write
-- that it meets, so the reads of one write cut it into pieces; `fuel` bounds their number.
unfoldable pub read_chunks : ℕ → ℕ → Bytes → List Bytes
read_chunks zero size written = []
read_chunks (suc fuel) size [] = []
read_chunks (suc fuel) size (b ∷ bs) =
    take size (b ∷ bs) ∷ read_chunks fuel size (drop size (b ∷ bs))

-- The datagrams of the writes of the node, in order. An empty write gives an empty read, which is not
-- sent.
unfoldable pub send_chunks : ℕ → List Bytes → List Bytes
unfolding read_chunks
send_chunks size [] = []
send_chunks size (w ∷ ws) = read_chunks (length w) size w ++ send_chunks size ws
