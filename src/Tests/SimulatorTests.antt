-- ===== src/Tests/SimulatorTests.antt =====
-- The terminal's table and internal/simulator at concrete inputs.
use mavlink_doctor.Common.{
  ℕ, ◌≤◌, ◌∷◌, ◌≡◌, refl, true, false, Bytes, Bytes-Eq, codes, some, List, [], arith, length, All,
}
use mavlink_doctor.Common.Format.{IsAscii}
use mavlink_doctor.Metrics.Types.{SourceMetrics}
use mavlink_doctor.Metrics.Tracker.{fresh_source}
use mavlink_doctor.Reporter.Terminal.Columns.{IsAligned, rows-IsAligned}
use mavlink_doctor.Reporter.Terminal.Telemetry.{heading, row_columns}
use mavlink_doctor.Common.Assoc.{lookup}
use mavlink_doctor.Simulator.{
  send_chunks, MockOptions, default_mock_options, Ready, tick, done, sent_messages, tick_loop,
  tick_messages,
}
use mavlink_doctor.Simulator.EndToEnd.{serve, chunked_sender_reassembled}
use mavlink_doctor.Simulator.Ticks.{gimbals}
use mavlink_doctor.Transport.UdpStream.{new_listener, run, is_accepted}
use mavlink_doctor.Simulator.Chunks.{concat}
use mavlink_doctor.Tests.Data.{vehicle, fractions}
use mavlink_doctor.Tests.RunTests.{fixed}

abbrev source : SourceMetrics (ℕ × ℕ)
source = fresh_source fractions vehicle 0

fixed-IsAscii : All IsAscii (codes "1.0")
unfolding codes
fixed-IsAscii = (omega arith, (omega arith, (omega arith, tt)))

fixed_short : length (codes "1.0") ≤ 7
unfolding codes
fixed_short = omega arith

rows-IsAligned_example : IsAligned (row_columns fixed source) × IsAligned heading
unfolding fresh_source
rows-IsAligned_example =
    rows-IsAligned fixed source (omega arith) (omega arith) tt fixed-IsAscii fixed_short

-- Two writes of a node.
abbrev writes : List Bytes
writes = (253 ∷ 1 ∷ 2 ∷ 3 ∷ []) ∷ (253 ∷ 4 ∷ []) ∷ []

chunked_sender_reassembled_example :
    let l = run new_listener (serve (codes "sim") (send_chunks 3 writes)) in
    (lookup (codes "sim") l.clients ≡ some (record { received = concat writes; is_closed = false }))
    × (is_accepted l (codes "sim") ≡ true)
chunked_sender_reassembled_example =
    chunked_sender_reassembled 3 writes (codes "sim") (omega arith) (λ e. cc)

-- Five ticks, and the end of the context.
abbrev five_ticks : List Ready
five_ticks = tick ∷ tick ∷ tick ∷ tick ∷ tick ∷ done ∷ tick ∷ []

abbrev options : MockOptions
options = default_mock_options (codes "127.0.0.1:14550")

two_gimbals : gimbals (sent_messages options five_ticks) ≡ 2
unfolding sent_messages tick_loop tick_messages default_mock_options
two_gimbals = refl
