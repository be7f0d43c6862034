-- ===== src/Prelude/Distinct.antt =====
-- Lists of texts without repetition.
use mathlib.Core.Path.{◌≡◌, refl, ◌∙◌}
use mathlib.Core.Bool.{false}
use mathlib.Core.List.{List, [], ◌∷◌, ◌++◌}
use Prim.Native.String.{String}
use native.Mathlib.Omega.{arith}
use text.Mathlib.Text.{◌==◌ as str_eq}
use text.Mathlib.TextEquality.{eq_iff}
use milky_frog_lite.Prelude.Filter.{contains, contains-append}

abbrev pub AreDistinct : List String → Type 0
AreDistinct [] = Unit
AreDistinct (x ∷ xs) = (contains xs x ≡ false) × AreDistinct xs

pub str_eq_sym : (a b : String) → str_eq a b ≡ str_eq b a
str_eq_sym a b = ground (arith, eq_iff a b, eq_iff b a)

pub AreDistinct-snoc :
    (xs : List String) (x : String)
    → AreDistinct xs
    → contains xs x ≡ false
    → AreDistinct (xs ++ x ∷ [])
AreDistinct-snoc [] x d h = (refl, tt)
AreDistinct-snoc (y ∷ ys) x d h = (
  contains-append ys (x ∷ []) y ∙ ground (arith, d.0, h, str_eq_sym x y),
  AreDistinct-snoc ys x d.1 (ground (arith, h)),
)
