-- ===== src/Base.antt =====
-- The names that every module shares: the libraries', passed on, and those of the children: tests
-- on numbers, lists over the native numbers, and the result of code that may throw.
mod Tests
mod Lists
mod Outcome
mod Texts
mod Lines
mod Any
pub use Tests.*
pub use Lists.*
pub use Outcome.*
pub use Texts.{
  Text, same_text, includes_text, is_space, same_text→eq, same_text_refl, strip_quotes,
  strip_quotes-quoted,
}
unfoldable pub use Texts.{drop_while, drop_end, trim, before, after_last, remove_units}
pub use Any.*
pub use Lines.{
  split-append, join-split, split-join, any-split, any-join, Lacks, Lacks-split, Lacks-drop_end,
}
unfoldable pub use Lines.{split, join}
pub use Prim.Native.Nat.{ℕ, zero, suc, ◌+◌, ◌-◌, ◌*◌, ◌/◌, ◌%◌, ◌^◌, ◌≤◌, ◌<◌, min, max}
pub use mathlib.Core.Path.{◌≡◌, refl, sym, ap, subst, ◌∙◌, ◌≡⟨◌⟩◌, ◌∎}
pub use mathlib.Core.Logic.{◌≢◌, ◌↔◌, ◌⊎◌, inl, inr}
pub use mathlib.Core.Bool.{Bool, true, false, not, ◌&&◌, ◌||◌}
pub use mathlib.Core.Option.{Option, none, some}
pub use mathlib.Core.List.{List, [], ◌∷◌, ◌++◌, map, Memᴰ}
pub use native.Mathlib.Omega.{arith}
