-- ===== src/Reporter/Terminal/Columns.antt =====
-- The table of sources that `PrintMAVLinkSummary` prints.
use mavlink_doctor.Common.{
  ℕ, zero, suc, ◌<◌, ◌≤◌, Bool, true, false, ◌&&◌, Option, none, some, [], ◌∷◌, ◌++◌, ◌≡◌, refl,
  Bytes, codes, All, All-append, length, length-append, take, leb, ltb, arith, if◌then◌else◌,
}
use mavlink_doctor.Common.Decimal.{decimal}
use mavlink_doctor.Common.Table.{table, table_entry}
use mavlink_doctor.Common.Format.{pad, length-pad, IsAscii}
use mavlink_doctor.Common.Assoc.{lookup}
use mavlink_doctor.Common.Fields.{contains_text}
use mavlink_doctor.Metrics.Types.{HeartbeatStats, SourceMetrics}
use mavlink_doctor.Reporter.Terminal.Names.{
  short_component_name, short_type_string, length-short_type_string,
}
use mavlink_doctor.Reporter.Terminal.Telemetry.{
  source_text, columns, cells_of, row_columns, heading,
}

-- A text that fits into a column.
abbrev Fits : ℕ → Bytes → Type 0
Fits width s = All IsAscii s × (length s ≤ width)

is_ascii : Bytes → Bool
is_ascii [] = true
is_ascii (c ∷ cs) = ltb c 128 && is_ascii cs

is_ascii-All : (s : Bytes) → is_ascii s ≡ true → All IsAscii s
unfolding is_ascii
is_ascii-All [] h = tt
is_ascii-All (c ∷ cs) h = (ground arith, is_ascii-All cs (ground arith))

abbrev fits : ℕ → Bytes → Bool
fits width s = is_ascii s && leb (length s) width

fits-Fits : (width : ℕ) (s : Bytes) → fits width s ≡ true → Fits width s
fits-Fits width s h = (is_ascii-All s (ground arith), ground arith)

decimals_fit : table (λ n. fits 3 (decimal n)) 256 ≡ true
unfolding table is_ascii decimal
decimals_fit = refl

names_fit : table (λ n. fits 16 (short_component_name n)) 256 ≡ true
unfolding table is_ascii decimal short_component_name lookup codes
names_fit = refl

decimal-Fits : (n : ℕ) → n < 256 → Fits 3 (decimal n)
decimal-Fits n h =
    fits-Fits 3 (decimal n) (table_entry (λ k. fits 3 (decimal k)) n 256 h decimals_fit)

short_component_name-Fits : (n : ℕ) → n < 256 → Fits 16 (short_component_name n)
short_component_name-Fits n h =
    fits-Fits 16 (short_component_name n)
      (table_entry (λ k. fits 16 (short_component_name k)) n 256 h names_fit)

source_text-Fits : (sys comp : ℕ) → sys < 256 → comp < 256 → Fits 10 (source_text sys comp)
unfolding codes
source_text-Fits sys comp hs hc =
    let (a, m) = decimal-Fits sys hs in
    let (b, n) = decimal-Fits comp hc in
    (
      All-append IsAscii (decimal sys) _ a (omega arith, (omega arith, (omega arith, b))),
      omega (arith, length-append (decimal sys) (codes " / " ++ decimal comp)),
    )

All-take : (n : ℕ) (s : Bytes) → All IsAscii s → All IsAscii (take n s)
All-take zero s h = tt
All-take (suc n) [] h = tt
All-take (suc n) (c ∷ cs) h = (h.0, All-take n cs h.1)

All-if : (b : Bool) (x y : Bytes) → All IsAscii x → All IsAscii y → All IsAscii (if b then x else y)
All-if true x y h k = h
All-if false x y h k = k

short_type_string-IsAscii : (type : Bytes) → All IsAscii type → All IsAscii (short_type_string type)
unfolding short_type_string is_ascii codes
short_type_string-IsAscii type h =
    All-if (contains_text (codes "Quadrotor") type) _ _ (is_ascii-All (codes "Quadrotor") refl) (
      All-if (contains_text (codes "Gimbal") type) _ _ (is_ascii-All (codes "Payload Gimbal") refl)
        (All-if (contains_text (codes "Fixed Wing") type) _ _
          (is_ascii-All (codes "Fixed Wing") refl)
          (All-if (contains_text (codes "Hexarotor") type) _ _
            (is_ascii-All (codes "Hexarotor") refl)
            (All-if (ltb 22 (length type)) (take 22 type) type (All-take 22 type h) h))))

short_type_string-Fits : (type : Bytes) → All IsAscii type → Fits 24 (short_type_string type)
short_type_string-Fits type h =
    (short_type_string-IsAscii type h, omega (arith, length-short_type_string type))

-- Five cells of 10, 16, 24, 10 and 10 characters, each with a space after it: the texts of such rows
-- stand one below the other, column by column.
pub record IsAligned (row : Bytes) : Type 0 where
  pub source : Bytes
  pub component : Bytes
  pub type : Bytes
  pub rate : Bytes
  pub heartbeat_rate : Bytes
  pub widths :
      (length source ≡ 10)
      × (length component ≡ 16)
      × (length type ≡ 24)
      × (length rate ≡ 10)
      × (length heartbeat_rate ≡ 10)
  pub cells :
      row
      ≡ source
        ++ (32
            ∷ (component ++ (32 ∷ (type ++ (32 ∷ (rate ++ (32 ∷ (heartbeat_rate ++ 32 ∷ []))))))))

columns-IsAligned :
    (source component type rate heartbeat_rate : Bytes)
    → Fits 10 source
    → Fits 16 component
    → Fits 24 type
    → Fits 10 rate
    → Fits 10 heartbeat_rate
    → IsAligned (columns source component type rate heartbeat_rate)
unfolding columns
columns-IsAligned source component type rate heartbeat_rate a b c d e = record {
  source = pad 10 source;
  component = pad 16 component;
  type = pad 24 type;
  rate = pad 10 rate;
  heartbeat_rate = pad 10 heartbeat_rate;
  widths = (
    length-pad 10 source a.0 a.1,
    length-pad 16 component b.0 b.1,
    length-pad 24 type c.0 c.1,
    length-pad 10 rate d.0 d.1,
    length-pad 10 heartbeat_rate e.0 e.1,
  );
  cells = refl;
}

heading-IsAligned : IsAligned heading
unfolding is_ascii codes
heading-IsAligned =
    columns-IsAligned (codes "SOURCE") (codes "COMPONENT") (codes "TYPE / AUTOPILOT")
      (codes "MSG RATE") (codes "HB RATE") (fits-Fits 10 (codes "SOURCE") refl)
      (fits-Fits 16 (codes "COMPONENT") refl) (fits-Fits 24 (codes "TYPE / AUTOPILOT") refl)
      (fits-Fits 10 (codes "MSG RATE") refl) (fits-Fits 10 (codes "HB RATE") refl)

hertz-Fits : (number : Bytes) → Fits 7 number → Fits 10 (number ++ codes " Hz")
unfolding is_ascii codes
hertz-Fits number h = (
  All-append IsAscii number _ h.0 (is_ascii-All (codes " Hz") refl),
  omega (arith, length-append number (codes " Hz")),
)

module _ {F : Type 0} (fixed : ℕ → F → Bytes) where
  -- What a heartbeat's cells are made of fits.
  abbrev pub HeartbeatFits : Option (HeartbeatStats F) → Type 0
  HeartbeatFits none = Unit
  HeartbeatFits (some hb) =
      All IsAscii hb.vehicle_type
      × (All IsAscii (fixed 2 hb.rate_hz) × (length (fixed 2 hb.rate_hz) ≤ 7))

  cells-Fit :
      (s : SourceMetrics F) (stats : Option (HeartbeatStats F))
      → HeartbeatFits stats
      → Fits 24 (cells_of fixed s stats).type × Fits 10 (cells_of fixed s stats).heartbeat_rate
  unfolding cells_of is_ascii codes
  cells-Fit s none h = (fits-Fits 24 (codes "Telemetry") refl, fits-Fits 10 (codes "n/a") refl)
  cells-Fit s (some hb) h =
      (short_type_string-Fits hb.vehicle_type h.0, hertz-Fits (fixed 2 hb.rate_hz) h.1)

  -- In the table of sources, the heading and the row of every source whose numbers are bytes, whose
  -- vehicle type is ASCII and whose rates print in at most seven ASCII characters have their columns
  -- at the same places: no cell is too long for its column, whatever the vehicle type.
  pub rows-IsAligned :
      (s : SourceMetrics F)
      → s.system_id < 256
      → s.component_id < 256
      → HeartbeatFits s.heartbeat_stats
      → All IsAscii (fixed 1 s.msg_rate_hz)
      → length (fixed 1 s.msg_rate_hz) ≤ 7
      → IsAligned (row_columns fixed s) × IsAligned heading
  unfolding row_columns
  rows-IsAligned s hs hc hb ascii short =
      let cells = cells_of fixed s s.heartbeat_stats in
      let (type, rate) = cells-Fit s s.heartbeat_stats hb in
      (
        columns-IsAligned (source_text s.system_id s.component_id)
            (short_component_name s.component_id) cells.type (fixed 1 s.msg_rate_hz ++ codes " Hz")
            cells.heartbeat_rate (source_text-Fits s.system_id s.component_id hs hc)
            (short_component_name-Fits s.component_id hc) type
            (hertz-Fits (fixed 1 s.msg_rate_hz) (ascii, short)) rate,
        heading-IsAligned,
      )
