-- ===== src/Tests/Data.antt =====
-- Test data: an exact arithmetic in place of float64, frames, histories and configurations.
use mavlink_doctor.Common.{
  Bool, true, false, not, ◌&&◌, ◌≡◌, All, arith, ℕ, suc, ◌+◌, ◌*◌, Bytes, codes, List, [], ◌∷◌,
  nat_eq, leb, ltb,
}
use mavlink_doctor.Common.Int.{ℤ, pos, negsuc}
use mavlink_doctor.Gomavlib.{
  Message, heartbeat, other, Frame, v2_frame, Event, channel_open, frame_received, parse_error,
}
use mavlink_doctor.Metrics.Float64.{Float64}
use mavlink_doctor.Metrics.Types.{EndpointKey}
use mavlink_doctor.Metrics.Heartbeat.{Identity}
use mavlink_doctor.Metrics.Calls.{Call, frame, beat, bad_frame}
use mavlink_doctor.Main.EventLoop.{Timed}

-- Fractions that are 0 or more: a numerator and a denominator.
abbrev pub size : ℤ → ℕ
size (pos n) = n
size (negsuc n) = suc n

abbrev pub fractions : Float64
fractions = record {
  F = ℕ × ℕ;
  of_nat = λ n. (n, 1);
  of_int = λ z. (size z, 1);
  ratio = λ a b. (a, b);
  add = λ x y. (x.0 * y.1 + y.0 * x.1, x.1 * y.1);
  mul = λ x y. (x.0 * y.0, x.1 * y.1);
  div = λ x y. (x.0 * y.1, x.1 * y.0);
  abs = λ x. x;
  lt = λ x y. ltb (x.0 * y.1) (y.0 * x.1);
  le = λ x y. leb (x.0 * y.1) (y.0 * x.1);
  is_zero = λ x. nat_eq x.0 0;
}

abbrev pub copter : Message
copter = heartbeat 2 3 4

abbrev pub attitude : Message
attitude = other (codes "*common.MessageAttitude")

abbrev pub frame_of : ℕ → ℕ → ℕ → Message → Frame
frame_of sys comp seq message = record {
  kind = v2_frame;
  message = message;
  system_id = sys;
  component_id = comp;
  sequence_number = seq;
}

abbrev pub vehicle : EndpointKey
vehicle = record { system_id = 1; component_id = 1 }

abbrev pub camera : EndpointKey
camera = record { system_id = 1; component_id = 100 }

abbrev pub who : Identity
who = record {
  autopilot = codes "ArduPilotMega";
  vehicle = codes "Quadrotor";
  state = codes "Active";
}

-- Two frames of the vehicle with one lost in between, two heartbeats a second apart, and an error.
abbrev pub history : List (ℕ × Call)
history =
    (1_000_000_000, frame (frame_of 1 1 7 copter) (codes "MAVLink 2") 12)
    ∷ (1_000_000_000, beat vehicle who)
    ∷ (1_500_000_000, bad_frame)
    ∷ (2_000_000_000, frame (frame_of 1 1 9 copter) (codes "MAVLink 2") 12)
    ∷ (2_000_000_000, beat vehicle who)
    ∷ []

abbrev pub at : ℕ → Event → Timed
at now e = record { event = e; frame_time = now; beat_time = now }

abbrev pub events : List Timed
events =
    at 0 channel_open
    ∷ at 1_000_000_000 (frame_received (frame_of 1 1 7 copter))
    ∷ at 1_500_000_000 parse_error
    ∷ at 2_000_000_000 (frame_received (frame_of 1 100 8 attitude))
    ∷ at 2_500_000_000 (frame_received (frame_of 1 1 9 copter))
    ∷ []

abbrev pub no_text : ℕ → Bytes
no_text bits = []

-- Every byte of a text passes a test.
abbrev pub every : (ℕ → Bool) → Bytes → Bool
every test [] = true
every test (c ∷ cs) = test c && every test cs

pub fails_on :
    (test : ℕ → Bool) (s : Bytes) → every (λ c. not (test c)) s ≡ true → All (λ c. test c ≡ false) s
fails_on test [] h = tt
fails_on test (c ∷ cs) h = (ground arith, fails_on test cs (ground arith))
