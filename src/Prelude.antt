-- ===== src/Prelude.antt =====
-- Names that the whole development shares: the libraries' own, passed on, and those of the
-- children. Tests has Boolean tests and the conditional, Lists the lists of process indices, Int
-- the C type `int`.
pub mod Tests
pub mod Lists
pub mod Int
pub use Tests.{ltb, leb, ◌==◌, if◌then◌else◌, ==_iff, eq_of_==, ==_self, Bool-cases, Option-cases}
pub use Lists.{
  length, get_elem?, set, replicate, update, has, Distinct, length-append, has-append,
  Distinct-snoc, has-append_left, has-append_right, has-middle, Distinct-append_left,
  Distinct-middle, length_of_Distinct, List-cases,
}
pub use Int.{
  ℤ, pos, negsuc, pos_part, neg_part, ltb_ℤ, leb_ℤ, ◌==ℤ◌, ==ℤ_iff, incr_below, incr_above,
  decr_below, decr_above, incr_pos, decr_pos, ltb_ℤ-incr, ltb_ℤ-incr_self, ltb_ℤ-irrefl,
}
unfoldable pub use Int.{◌+ℤ◌, ◌-ℤ◌}
pub use Prim.Native.Nat.{ℕ, zero, suc, ◌+◌, ◌-◌, ◌*◌, ◌/◌, ◌%◌, ◌^◌, ◌≤◌, ◌<◌}
pub use mathlib.Core.Path.{◌≡◌, refl, sym, ap, ◌∙◌}
pub use mathlib.Core.Logic.{◌≢◌, ◌↔◌, ◌⊎◌, inl, inr}
pub use mathlib.Core.Bool.{Bool, true, false, ◌&&◌, ◌||◌, not}
pub use mathlib.Core.Option.{Option, none, some}
pub use mathlib.Core.List.{List, [], ◌∷◌, ◌++◌, map}
pub use native.Mathlib.Omega.{arith}
