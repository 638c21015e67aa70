-- ===== src/Base.antt =====
-- The names that the other modules share: the libraries', passed on, and those of the children.
mod Tests
mod Lists
mod Texts
mod Ordered
pub mod Dict
pub use Tests.*
pub use Lists.*
unfoldable pub use Texts.{text_eq, span}
unfoldable pub use Ordered.{text_lt, set_insert, set_member}
pub use Ordered.{
  text_lt_irrefl, text_lt_trans, text_lt_total, Above, IsOrdered, set_member-insert,
  set_insert-IsOrdered,
}
pub use Texts.{
  Text, codes, text_eq_iff, text_eq_refl, text_eq_sound, Within, Stops, span-append, span-all,
  span-Within,
}
pub use Prim.Native.Nat.{ℕ, zero, suc, ◌+◌, ◌-◌, ◌*◌, ◌/◌, ◌%◌, ◌^◌, ◌≤◌, ◌<◌}
pub use mathlib.Core.Path.{◌≡◌, refl, sym, ap, subst, ◌∙◌}
pub use mathlib.Core.Logic.{◌≢◌, ◌↔◌, ◌⊎◌, inl, inr}
pub use mathlib.Core.Bool.{Bool, true, false, not, ◌&&◌, ◌||◌}
pub use mathlib.Core.Option.{Option, none, some}
pub use mathlib.Core.List.{List, [], ◌∷◌, ◌++◌, map}
pub use native.Mathlib.Omega.{arith}
