-- ===== src/Prelude/Maps.antt =====
-- Go's maps with string keys: a later entry stands in front and hides an earlier one.
use mathlib.Core.Bool.{Bool, true, false}
use mathlib.Core.Option.{Option, none, some}
use mathlib.Core.List.{List, [], ◌∷◌}
use Prim.Native.String.{String}
use songbird_prototypes.Prelude.Tests.{if◌then◌else◌}
use songbird_prototypes.Prelude.Texts.{◌==◌}

module _ {ℓ} {A : Type ℓ} where
  abbrev pub lookup : String → List (String × A) → Option A
  lookup k [] = none
  lookup k ((k', a) ∷ m) = if k' == k then some a else lookup k m

  abbrev pub has_key : String → List (String × A) → Bool
  has_key k m = elim (lookup k m) [ none ↦ false | some a ↦ true ]
