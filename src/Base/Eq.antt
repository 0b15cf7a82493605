-- ===== src/Base/Eq.antt =====
-- Python's `==` on texts and bytes, which are lists of numbers here, and `in` on their lists.
use Prim.Native.Nat.{ℕ}
use Prim.Native.Char.{code}
use Prim.Native.String.{String}
use mathlib.Core.Path.{◌≡◌, refl}
use mathlib.Core.Logic.{◌↔◌}
use mathlib.Core.Bool.{Bool, true, false, ◌&&◌, ◌||◌}
use mathlib.Core.List.{List, [], ◌∷◌}
use native.Mathlib.Omega.{arith}
use smartedge.Base.Tests.{◌==◌}

-- A text is the list of its code points, a byte string the list of its bytes.
abbrev pub Text : Type 0
Text = List ℕ

-- The code points of a literal.
unfoldable pub codes : String → Text
codes String.[] = []
codes (String.◌∷◌ c s) = code c ∷ codes s

infix 50 ◌=?◌
unfoldable pub ◌=?◌ : Text → Text → Bool
[] =? [] = true
[] =? (b ∷ t) = false
(a ∷ s) =? [] = false
(a ∷ s) =? (b ∷ t) = a == b && s =? t

pub =?_iff : (s t : Text) → ((s =? t) ≡ true) ↔ (s ≡ t)
unfolding ◌=?◌
=?_iff [] [] = ground arith
=?_iff [] (b ∷ t) = ground arith
=?_iff (a ∷ s) [] = ground arith
=?_iff (a ∷ s) (b ∷ t) = ground (arith, =?_iff s t)

pub =?_refl : (s : Text) → (s =? s) ≡ true
=?_refl s = (=?_iff s s).1 refl

-- `x in xs`
unfoldable pub elem : ℕ → List ℕ → Bool
elem x [] = false
elem x (y ∷ ys) = y == x || elem x ys

unfoldable pub elem_text : Text → List Text → Bool
elem_text x [] = false
elem_text x (y ∷ ys) = y =? x || elem_text x ys
