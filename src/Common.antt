-- ===== src/Common.antt =====
-- The names that every module of this development shares: the libraries', passed on, and those of
-- the children on Boolean tests, signed integers and lists.
mod Tests
mod Lists
mod Int
mod Text
pub use Tests.*
pub use Lists.*
pub use Int.{
  ℤ, pos, negsuc, ℤ-discrete, compare_ℤ, ◌==ℤ◌, ==ℤ_iff, ==ℤ_refl, leb_ℤ, as_u64, sub_ℕ, pos_part,
  neg_part,
}
unfoldable pub use Int.{◌+ℤ◌}
unfoldable pub use Text.{String-discrete, is_whitespace, trim_start, trim_end, byte_len}
pub use Text.{
  same_text, same_text_iff, is_blank, starts_with, trim, then_with, compare_text,
  same_ignoring_case, contains_at,
}
pub use Prim.Native.Nat.{ℕ, zero, suc, ◌+◌, ◌-◌, ◌*◌, ◌/◌, ◌%◌, ◌^◌, ◌≤◌, ◌<◌, compare, Ordering}
pub use Prim.Native.String.{String, len}
pub use mathlib.Core.Path.{◌≡◌, refl, sym, ap, subst, ◌∙◌}
pub use mathlib.Core.Logic.{◌≢◌, ◌↔◌, ◌⊎◌, inl, inr}
pub use mathlib.Core.Bool.{Bool, true, false, ◌&&◌, ◌||◌, not}
pub use mathlib.Core.Option.{Option, none, some}
pub use mathlib.Core.List.{List, [], ◌∷◌, ◌++◌, map, append-nil, append_assoc}
pub use native.Mathlib.Omega.{arith}
