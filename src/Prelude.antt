-- ===== src/Prelude.antt =====
-- The names that the other modules share: the libraries', passed on, and those of the children.
mod Tests
mod Lists
mod Int
mod Text
mod Slices
mod Finite
pub use Tests.*
pub use Lists.*
pub use Slices.*
pub use Finite.{all_below-each}
pub use Int.{ℤ, pos, negsuc, neg_ℕ, sub_ℕ, ltb_ℤ, ◌+ℤ◌, is_int32}
pub use Text.{Bytes, codes, eqb, eqb_refl, eqb→eq, eqb-ne}
unfoldable pub use Text.{print_int}
unfoldable pub use Int.{rem}
unfoldable pub use Finite.{all_below}
pub use Prim.Native.Nat.{ℕ, zero, suc, min, ◌+◌, ◌-◌, ◌*◌, ◌/◌, ◌%◌, ◌^◌, ◌≤◌, ◌<◌}
pub use mathlib.Core.Path.{◌≡◌, refl, sym, ap, ap₂, ◌∙◌, subst}
pub use mathlib.Core.Logic.{◌≢◌, ◌↔◌, ◌⊎◌, inl, inr}
pub use mathlib.Core.Bool.{Bool, true, false, not, ◌&&◌, ◌||◌}
pub use mathlib.Core.Option.{Option, none, some}
pub use mathlib.Core.List.{List, [], ◌∷◌, ◌++◌, map, append-nil, append_assoc}
pub use native.Mathlib.Omega.{arith}
