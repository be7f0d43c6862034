-- ===== src/Prelude/Dictionary.antt =====
-- Python's dictionaries keyed by text, in insertion order.
use mathlib.Core.Path.{◌≡◌, refl}
use mathlib.Core.Option.{Option, none, some}
use mathlib.Core.List.{List, [], ◌∷◌}
use Prim.Native.String.{String}
use native.Mathlib.Omega.{arith}
use text.Mathlib.Text.{◌==◌ as str_eq}
use text.Mathlib.TextEquality.{eq_iff}
use milky_frog_lite.Prelude.Tests.{if◌then◌else◌}

abbrev pub Dict {ℓ} : Type ℓ → Type ℓ
Dict V = List (String × V)

module _ {ℓ} {V : Type ℓ} where
  -- `d.get(key)`
  abbrev pub find : Dict V → String → Option V
  find [] key = none
  find ((k, v) ∷ d) key = if str_eq k key then some v else find d key

  -- `d[key] = value`: an old key keeps its place
  abbrev pub assign : Dict V → String → V → Dict V
  assign [] key value = (key, value) ∷ []
  assign ((k, v) ∷ d) key value =
      let rest = assign d key value in if str_eq k key then (k, value) ∷ d else (k, v) ∷ rest

  pub find-assign :
      (d : Dict V) (key j : String) (value : V)
      → find (assign d key value) j ≡ (if str_eq key j then some value else find d j)
  find-assign [] key j value = refl
  find-assign ((k, v) ∷ d) key j value =
      ground (arith, eq_iff key j, eq_iff k key, eq_iff k j, find-assign d key j value)
