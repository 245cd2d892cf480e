-- ===== src/Common.antt =====
-- The names that the other modules share: the libraries', passed on, and those of three children.
mod Tests
mod Lists
mod Text
mod Maps
mod Lines
pub use Tests.*
pub use Lists.*
pub use Maps.*
pub use Text.{Bytes, codes, Lacks, bytes_eq_iff, bytes_eq_refl, bytes_lt_prefix, contains_iff}
pub use Lines.{getlines_end, getlines_next, getlines-delimiter, getlines_last, getlines-append}
unfoldable pub use Lines.{getlines}
unfoldable pub use Text.{bytes_eq, bytes_lt, contains}
pub use Prim.Native.Nat.{ℕ, zero, suc, ◌+◌, ◌-◌, ◌*◌, ◌/◌, ◌%◌, ◌^◌, ◌≤◌, ◌<◌}
pub use Prim.Native.String.{String}
pub use mathlib.Core.Path.{◌≡◌, refl, sym, ap, ap₂, ◌∙◌, subst}
pub use mathlib.Core.Logic.{◌≢◌, ◌↔◌, ◌⊎◌, inl, inr}
pub use mathlib.Core.Bool.{Bool, true, false, not, ◌&&◌, ◌||◌}
pub use mathlib.Core.Option.{Option, none, some}
pub use mathlib.Core.List.{List, [], ◌∷◌, ◌++◌, append-nil, append_assoc}
pub use native.Mathlib.Omega.{arith}
