-- ===== src/Prelude.antt =====
-- The names that the other modules share: the libraries' ones, passed on, and those of the
-- children (tests on numbers and options, lists, tables of rows).
mod Tests
mod Lists
mod Table
mod Changes
mod Sort
mod Select
mod Some
pub use Tests.*
pub use Lists.*
unfoldable pub use Lists.{sum_by, take, drop}
pub use Table.*
pub use Changes.*
pub use Sort.*
pub use Select.*
pub use Some.*
unfoldable pub use Sort.{insert_with, sort_with, by_columns}
unfoldable pub use Table.{find, select, update, delete}
pub use Prim.Native.Nat.{ℕ, zero, suc, ◌+◌, ◌-◌, ◌*◌, ◌/◌, ◌^◌, ◌≤◌, ◌<◌, max}
pub use Prim.Native.String.{String}
pub use mathlib.Core.Path.{◌≡◌, refl, sym, subst, subst₃, ap, ap₂, ◌∙◌}
pub use mathlib.Core.Logic.{◌≢◌, ◌↔◌, ◌⊎◌, inl, inr}
pub use mathlib.Core.Bool.{Bool, true, false, not, ◌&&◌, ◌||◌}
pub use mathlib.Core.Option.{Option, none, some}
pub use mathlib.Core.List.{List, [], ◌∷◌, ◌++◌, map, append-nil}
pub use native.Mathlib.Omega.{arith}
