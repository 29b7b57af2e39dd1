-- ===== src/Prelude/Dicts.antt =====
-- A dictionary with text keys as an association list in insertion order.
use Prim.Native.String.{String}
use mathlib.Core.Path.{◌≡◌, refl}
use mathlib.Core.List.{List, [], ◌∷◌}
use mathlib.Core.Option.{Option, none, some}
use native.Mathlib.Omega.{arith}
use text.Mathlib.Text.{◌==◌}
use text.Mathlib.TextEquality.{eq_iff}
use data_quality_toolkit.Prelude.Tests.{if◌then◌else◌}

abbrev pub Dict {ℓ} : Type ℓ → Type ℓ
Dict V = List (String × V)

module _ {ℓ} {V : Type ℓ} where
  abbrev pub keys : Dict V → List String
  keys [] = []
  keys ((k, v) ∷ d) = k ∷ keys d

  unfoldable pub lookup : String → Dict V → Option V
  lookup key [] = none
  lookup key ((k, v) ∷ d) = if k == key then some v else lookup key d

  -- An assignment keeps the place of a key that is there.
  unfoldable pub insert : String → V → Dict V → Dict V
  insert key new [] = (key, new) ∷ []
  insert key new ((k, old) ∷ d) = if k == key then (k, new) ∷ d else (k, old) ∷ insert key new d

  pub lookup-insert :
      (key asked : String) (new : V) (d : Dict V)
      → lookup asked (insert key new d) ≡ (if key == asked then some new else lookup asked d)
  unfolding lookup insert
  lookup-insert key asked new [] = refl
  lookup-insert key asked new ((k, old) ∷ d) =
      ground (arith, lookup-insert key asked new d, eq_iff k key, eq_iff k asked, eq_iff key asked)

  pub lookup-insert_self :
      (key : String) (new : V) (d : Dict V) → lookup key (insert key new d) ≡ some new
  lookup-insert_self key new d = ground (arith, eq_iff key key, lookup-insert key key new d)
