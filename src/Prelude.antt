-- ===== src/Prelude.antt =====
-- The names that the other modules share: the libraries', passed on, and those of the children.
mod Tests
mod Lists
mod Int
mod Effects
mod Maps
pub mod Text
pub mod Machine
pub use Maps.*
pub use Tests.*
pub use Lists.*
pub use Int.*
unfoldable pub use Effects.{for_range, for_each}
pub use Effects.{
  Panic, index_out_of_range, nil_dereference, type_assertion, negative_wait_group,
  close_of_closed_channel, invalid_argument, Outcome, ok, panic, fatal, out_of_fuel, ◌>>=◌, ◌>>◌,
  Returns, Returns-bind, Returns-ok, Returns-map, >>=-eq-ok, >>=_ok, or_panic, at, put, at-lt,
  put-lt, for_range-Returns,
}
pub use Prim.Native.Nat.{ℕ, zero, suc, ◌+◌, ◌-◌, ◌*◌, ◌/◌, ◌%◌, ◌^◌, ◌≤◌, ◌<◌}
pub use mathlib.Core.Path.{◌≡◌, refl, sym, ap, subst, ◌∙◌}
pub use mathlib.Core.Logic.{◌≢◌, ◌↔◌, ◌⊎◌, inl, inr}
pub use mathlib.Core.Bool.{Bool, true, false, ◌&&◌, ◌||◌, not}
pub use mathlib.Core.Option.{Option, none, some}
pub use mathlib.Core.List.{List, [], ◌∷◌, ◌++◌, map}
pub use native.Mathlib.Omega.{arith}
unfoldable pub use native.Mathlib.Decide.{ℕ_discrete}
