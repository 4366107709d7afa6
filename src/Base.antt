-- ===== src/Base.antt =====
-- Names that every module shares: the library's, passed on, Boolean tests on the native numbers,
-- case lemmas for computed values, and the scalar types of the repository's records.
mod Tests
mod Errors
mod Dicts
mod Lists
mod Texts
mod Sets
mod Members
mod Sorting
mod Quantifiers
pub use Tests.*
pub use Errors.*
pub use Dicts.*
pub use Lists.*
pub use Sets.*
pub use Members.*
pub use Sorting.*
pub use Quantifiers.*
unfoldable pub use Texts.*
pub use Prim.Native.Nat.{ℕ, zero, suc, ◌+◌, ◌-◌, ◌*◌, ◌^◌, ◌≤◌, ◌<◌}
pub use Prim.Native.String.{String}
pub use mathlib.Core.Path.{◌≡◌, refl, sym, ◌∙◌, ap, subst}
pub use mathlib.Core.Logic.{◌≢◌, ◌↔◌, ◌⊎◌, inl, inr}
pub use mathlib.Core.Bool.{Bool, true, false, not, ◌&&◌, ◌||◌}
pub use mathlib.Core.Option.{Option, none, some}
pub use mathlib.Core.List.{List, [], ◌∷◌, ◌++◌, map}
pub use native.Mathlib.Omega.{arith}

-- A UUID is its 128-bit number, which orders as its canonical text does.
abbrev pub Uuid : Type 0
Uuid = ℕ

-- A datetime normalised to UTC, as `UtcModel` keeps it: an instant, in microseconds.
abbrev pub Timestamp : Type 0
Timestamp = ℕ

abbrev pub Text : Type 0
Text = String
