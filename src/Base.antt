-- ===== src/Base.antt =====
-- Names shared by every module: the libraries' and those of the children.
mod Tests
mod Lists
mod Int
mod Keys
mod Errors
pub mod Actions
pub use Tests.*
pub use Lists.*
pub use Int.{
  ℤ, pos, negsuc, pos_part, neg_part, ltb_ℤ, leb_ℤ, eqb_ℤ, ◌≤ℤ◌, to_ℕ, int_laws, +ℤ_parts, -ℤ_parts,
  eq_of_parts,
}
unfoldable pub use Int.{◌+ℤ◌, ◌-ℤ◌, ◌*ℤ◌}
pub use Keys.{
  Eq, ◌==◌, nat_eq, list_beq, list_beq_iff, list_eq, pair_beq, pair_beq_iff, pair_eq, Dict,
  lookup-insert, lookup-insert_self, lookup-All, insert-All, values, keys,
}
unfoldable pub use Keys.{lookup, insert, erase, contains}
pub use Errors.*
pub use Prim.Native.Nat.{ℕ, zero, suc, ◌+◌, ◌-◌, ◌*◌, ◌/◌, ◌%◌, ◌≤◌, ◌<◌, min}
pub use Prim.Native.String.{String}
pub use mathlib.Core.Path.{◌≡◌, refl, sym, ap, ◌∙◌}
pub use mathlib.Core.Logic.{◌≢◌, ◌↔◌, ◌⊎◌, inl, inr}
pub use mathlib.Core.Bool.{Bool, true, false, not, ◌&&◌, ◌||◌}
pub use mathlib.Core.Option.{Option, none, some}
pub use mathlib.Core.List.{List, [], ◌∷◌, ◌++◌, map}
pub use native.Mathlib.Omega.{arith}
