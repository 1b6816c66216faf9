-- ===== src/Prelude.antt =====
-- The names that every module shares: those of the libraries, passed on, and of the children.
mod Tests
mod Lists
mod Int
mod Pow
pub use Tests.*
pub use Lists.{
  length, is_empty, replicate, length-append, All, All-append, Bytes, codes, Lacks, bytes_eq_iff,
  bytes_eq_refl, bytes_eq_ne,
}
unfoldable pub use Lists.{bytes_eq}
pub use Int.{ℤ, pos, negsuc, pos_part, neg_part, sub_ℕ, ltb_ℤ}
unfoldable pub use Int.{of_bits64, add_sub64}
pub use Pow.{pow2-le-pow2, pow2-pos}
unfoldable pub use Pow.{pow2}
pub use Prim.Native.Nat.{ℕ, zero, suc, ◌+◌, ◌-◌, ◌*◌, ◌/◌, ◌%◌, ◌^◌, ◌≤◌, ◌<◌}
pub use mathlib.Core.Path.{◌≡◌, refl, sym, ap, subst, fun_ext, ◌∙◌}
pub use mathlib.Core.Logic.{◌≢◌, ◌↔◌, ◌⊎◌, inl, inr}
pub use mathlib.Core.Bool.{Bool, true, false, not, ◌&&◌, ◌||◌}
pub use mathlib.Core.Option.{Option, none, some}
pub use mathlib.Core.List.{List, [], ◌∷◌, ◌++◌, map, append_assoc, append-nil}
pub use native.Mathlib.Omega.{arith}
