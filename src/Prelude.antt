-- ===== src/Prelude.antt =====
-- The names that the other modules share: the libraries', passed on, and the children's: Boolean
-- tests and lists over the native numbers, texts, and the results of a transaction.
mod Tests
mod Lists
mod Texts
mod Results
mod Sorting
pub use Tests.*
pub use Lists.*
unfoldable pub use Texts.{Text, Text-discrete, is_space, is_blank, sort_texts}
pub use Results.*
pub use Sorting.*
pub use Prim.Native.Nat.{ℕ, zero, suc, ◌+◌, ◌-◌, ◌*◌, ◌≤◌, ◌<◌}
pub use mathlib.Core.Path.{◌≡◌, refl, sym, ap, ◌∙◌}
pub use mathlib.Core.Logic.{◌≢◌, ◌↔◌, ◌⊎◌, inl, inr}
pub use mathlib.Core.Bool.{Bool, true, false, not, ◌&&◌, ◌||◌}
pub use mathlib.Core.Option.{Option, none, some}
pub use mathlib.Core.List.{List, [], ◌∷◌, ◌++◌, map}
pub use native.Mathlib.Omega.{arith}
unfoldable pub use native.Mathlib.Decide.{ℕ_discrete}
