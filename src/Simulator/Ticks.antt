-- ===== src/Simulator/Ticks.antt =====
-- What the senders of internal/simulator/mock_server.go have sent after some ticks.
use mavlink_doctor.Common.{
  Result, ok, err, Bytes, ℕ, zero, suc, ◌+◌, Bool, true, false, List, [], ◌∷◌, ◌++◌, ◌≡◌, arith,
  if◌then◌else◌,
}
use mavlink_doctor.Simulator.{
  Sent, heartbeat_sent, attitude_sent, gimbal_sent, boot_time, Ready, done, tick,
}

-- The ticks before the end of the context.
abbrev pub ticks : List Ready → ℕ
ticks [] = 0
ticks (done ∷ rest) = 0
ticks (tick ∷ rest) = suc (ticks rest)

abbrev pub heartbeats : List Sent → ℕ
heartbeats [] = 0
heartbeats (heartbeat_sent t a b c s v ∷ ss) = suc (heartbeats ss)
heartbeats (attitude_sent t r p y ∷ ss) = heartbeats ss
heartbeats (gimbal_sent t c f ∷ ss) = heartbeats ss

abbrev pub gimbals : List Sent → ℕ
gimbals [] = 0
gimbals (heartbeat_sent t a b c s v ∷ ss) = gimbals ss
gimbals (attitude_sent t r p y ∷ ss) = gimbals ss
gimbals (gimbal_sent t c f ∷ ss) = suc (gimbals ss)

-- The times of the attitudes.
abbrev pub attitude_times : List Sent → List ℕ
attitude_times [] = []
attitude_times (heartbeat_sent t a b c s v ∷ ss) = attitude_times ss
attitude_times (attitude_sent t r p y ∷ ss) = t ∷ attitude_times ss
attitude_times (gimbal_sent t c f ∷ ss) = attitude_times ss

-- The times of the `n` ticks after the first `seq`.
abbrev pub times_after : ℕ → ℕ → List ℕ
times_after seq zero = []
times_after seq (suc n) = boot_time (seq + 1) ∷ times_after (seq + 1) n

-- The sender has sent one heartbeat and one attitude for each of `n` ticks after the first `seq`.
abbrev Keeps : ℕ → ℕ → List Sent → Type 0
Keeps seq n sent = (heartbeats sent ≡ n) × (attitude_times sent ≡ times_after seq n)

optional-gimbals :
    (b : Bool) (sent : List Sent)
    → gimbals ((if b then gimbal_sent 255 190 1 ∷ [] else []) ++ sent)
      ≡ (if b then 1 else 0) + gimbals sent
optional-gimbals true sent = omega arith
optional-gimbals false sent = omega arith

-- The sender returns an error.
abbrev pub Fails : Result Bytes (List Sent) → Type 0
Fails (ok sent) = ⊥
Fails (err e) = Unit
