-- ===== src/Base.antt =====
-- What every part shares: the libraries' names, Boolean tests, lists over the native numbers,
-- the (value, error) pair of Go as `Result`, and predicates on bytes and words.
mod Tests
mod Lists
mod Outcome
mod Table
mod Int
mod Text
pub mod Map
pub use Tests.*
pub use Lists.*
pub use Outcome.*
unfoldable pub use Table.{all_below}
pub use Table.{all_below_sound}
pub use Int.*
unfoldable pub use Text.{bytes_eq}
pub use Text.{codes, bytes_eq_self, bytes_eq_iff}
pub use Prim.Native.Nat.{ℕ, zero, suc, ◌+◌, ◌-◌, ◌*◌, ◌/◌, ◌%◌, ◌^◌, ◌≤◌, ◌<◌, min}
pub use Prim.Native.Nat.{bit_and, bit_or}
pub use mathlib.Core.Path.{◌≡◌, refl, sym, ap, ap₂, subst, ◌∙◌}
pub use mathlib.Core.Logic.{◌≢◌, ◌↔◌, ◌⊎◌, inl, inr}
pub use mathlib.Core.Bool.{Bool, true, false, not, ◌&&◌, ◌||◌}
pub use mathlib.Core.Option.{Option, none, some}
pub use mathlib.Core.List.{List, [], ◌∷◌, ◌++◌, map, append_assoc, append-nil}
pub use native.Mathlib.Omega.{arith}
unfoldable pub use native.Mathlib.Decide.{dec_lt, ℕ_discrete}
