-- ===== src/Base.antt =====
-- Names that every component uses: the libraries', passed on, Boolean tests, lists measured by
-- native numbers, texts as lists of bytes, and finite maps keyed by a type with equality.
mod Tests
mod Lists
mod Keys
mod Map
mod Results
mod Texts
mod Scan
mod Orders
mod Repeats
mod Decimal
pub use Tests.*
pub use Lists.*
pub use Keys.*
pub use Map.*
pub use Results.*
pub use Texts.*
pub use Orders.*
pub use Repeats.*
unfoldable pub use Decimal.*
unfoldable pub use Scan.*
pub use Prim.Native.Nat.{ℕ, zero, suc, ◌+◌, ◌-◌, ◌*◌, ◌/◌, ◌%◌, ◌^◌, ◌≤◌, ◌<◌}
pub use mathlib.Core.Path.{◌≡◌, refl, sym, ap, ◌∙◌, subst, ◌≡⟨◌⟩◌, ◌∎}
pub use mathlib.Core.Logic.{◌≢◌, ◌↔◌, ◌⊎◌, inl, inr}
pub use mathlib.Core.Bool.{Bool, true, false, ◌&&◌, ◌||◌, not}
pub use mathlib.Core.Option.{Option, none, some}
pub use mathlib.Core.List.{List, [], ◌∷◌, ◌++◌, map, append-nil, append_assoc}
pub use native.Mathlib.Omega.{arith}
pub use Prim.Native.String.{String}
