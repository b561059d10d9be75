-- ===== src/Common.antt =====
-- The names that every other module shares: the libraries' names, passed on, and those of the
-- children. No code of the repository is modelled here, but for Go's own library functions.
mod Tests
mod Lists
mod Text
mod Words
mod Results
pub mod Ascii
pub mod Fields
pub mod HostPort
pub mod Format
pub mod Int
pub mod Hex
pub mod Assoc
pub mod Decimal
pub mod NoRepeats
pub mod Table
pub use Tests.*
pub use Lists.*
unfoldable pub use Text.*
pub use Results.*
pub use Words.*
pub use Prim.Native.Nat.{ℕ, zero, suc, ◌+◌, ◌-◌, ◌*◌, ◌/◌, ◌%◌, ◌^◌, ◌≤◌, ◌<◌}
pub use Prim.Native.String.{String}
pub use mathlib.Core.Path.{◌≡◌, refl, sym, ap, subst, ◌∙◌}
pub use mathlib.Core.Logic.{◌≢◌, ◌↔◌, ◌⊎◌, inl, inr}
pub use mathlib.Core.Bool.{Bool, true, false, not, ◌&&◌, ◌||◌}
pub use mathlib.Core.Option.{Option, none, some}
pub use mathlib.Core.List.{List, [], ◌∷◌, ◌++◌, map, append-nil, append_assoc, map-append}
pub use native.Mathlib.Omega.{arith}
