-- ===== src/Base/Decimal.antt =====
-- `str(n)` and `int(text)`.
use Prim.Native.Nat.{ℕ, zero, suc, ◌+◌, ◌-◌, ◌*◌, ◌/◌, ◌%◌, ◌≤◌, ◌<◌}
use mathlib.Core.Path.{◌≡◌, refl, ◌∙◌, ap}
use mathlib.Core.Logic.{inl, inr}
use mathlib.Core.Bool.{Bool, true, false, ◌&&◌}
use mathlib.Core.Option.{Option, none, some}
use mathlib.Core.List.{[], ◌∷◌}
use native.Mathlib.Omega.{arith}
use smartedge.Base.Tests.{ltb, leb, ◌==◌, if◌then◌else◌, Bool-cases}
use smartedge.Base.Lists.{All, is_empty}
use smartedge.Base.Eq.{Text}
use smartedge.Base.Bytes.{strip, strip-no_space, is_space, has_char}

-- `negsuc n` is -(n + 1).
pub data ℤ : Type 0 where
  pos : ℕ → ℤ
  negsuc : ℕ → ℤ

-- The digits of `n` in front of those already written.
unfoldable pub to_dec : ℕ → ℕ → Text → Text
to_dec zero n acc = acc
to_dec (suc f) n acc =
    let rest = to_dec f (n / 10) ((48 + n % 10) ∷ acc) in if ltb n 10 then (48 + n) ∷ acc else rest

-- `str(n)`
unfoldable pub dec : ℕ → Text
unfolding to_dec
dec n = to_dec (suc n) n []

unfoldable pub is_digit : ℕ → Bool
is_digit c = leb 48 c && leb c 57

-- ASCII digits with single underscores between them; the flag tells that a digit came last.
digits : Bool → ℕ → Text → Option ℕ
unfolding is_digit
digits last acc [] = if last then some acc else none
digits last acc (c ∷ cs) = elim (is_digit c) [
  | true ↦ digits true (acc * 10 + (c - 48)) cs
  | false ↦ if last && c == b'_' then digits false acc cs else none
]

negate : Option ℕ → Option ℤ
negate none = none
negate (some zero) = some (pos 0)
negate (some (suc n)) = some (negsuc n)

positive : Option ℕ → Option ℤ
positive none = none
positive (some n) = some (pos n)

signed : Text → Option ℤ
unfolding digits negate positive
signed [] = none
signed (c ∷ cs) =
    if c == b'-'
    then negate (digits false 0 cs)
    else if c == b'+'
    then positive (digits false 0 cs)
    else positive (digits false 0 (c ∷ cs))

-- `int(text)`, `none` for a `ValueError`. Digits of other scripts are not modelled.
unfoldable pub int : Text → Option ℤ
unfolding signed strip
int t = signed (strip t)

abbrev pub AllDigits : Text → Type 0
AllDigits = All (λ c. (48 ≤ c) × (c ≤ 57))

to_dec-AllDigits : (f n : ℕ) (acc : Text) → AllDigits acc → AllDigits (to_dec f n acc)
unfolding to_dec
to_dec-AllDigits zero n acc h = h
to_dec-AllDigits (suc f) n acc h = elim (Bool-cases (ltb n 10)) [
  | inl low ↦ rw low ((ground arith, ground arith), h)
  | inr high ↦
      rw high (to_dec-AllDigits f (n / 10) ((48 + n % 10) ∷ acc) ((omega arith, omega arith), h))
]

pub dec-AllDigits : (n : ℕ) → AllDigits (dec n)
unfolding dec
dec-AllDigits n = to_dec-AllDigits (suc n) n [] tt

digits-cons :
    (last : Bool) (a c : ℕ) (cs : Text)
    → 48 ≤ c
    → c ≤ 57
    → digits last a (c ∷ cs) ≡ digits true (a * 10 + (c - 48)) cs
unfolding digits is_digit
digits-cons last a c cs l h = ground arith

-- The digits are read back with the value that they were written from.
digits-to_dec :
    (f n : ℕ) (acc : Text) (last : Bool)
    → n < f
    → digits last 0 (to_dec f n acc) ≡ digits true n acc
unfolding to_dec
digits-to_dec zero n acc last h = elim h [ ]
digits-to_dec (suc f) n acc last h = elim (Bool-cases (ltb n 10)) [
  | inl low ↦ rw low (
      digits-cons last 0 (48 + n) acc (omega arith) (ground arith)
      ∙ ap (λ k. digits true k acc) (omega arith))
  | inr high ↦ rw high (
      digits-to_dec f (n / 10) ((48 + n % 10) ∷ acc) last (ground arith)
      ∙ digits-cons true (n / 10) (48 + n % 10) acc (omega arith) (omega arith)
      ∙ ap (λ k. digits true k acc) (omega arith))
]

-- Digits are no white space, so `strip` leaves them alone.
AllDigits-no_space : (t : Text) → AllDigits t → All (λ c. is_space c ≡ false) t
unfolding is_space
AllDigits-no_space [] h = tt
AllDigits-no_space (c ∷ t) (d, h) = (ground arith, AllDigits-no_space t h)

strip-AllDigits : (t : Text) → AllDigits t → strip t ≡ t
strip-AllDigits t h = strip-no_space t (AllDigits-no_space t h)

signed-AllDigits : (t : Text) → AllDigits t → signed t ≡ positive (digits false 0 t)
unfolding signed
signed-AllDigits [] h = refl
signed-AllDigits (c ∷ t) h = ground arith

-- `int(str(n)) == n`
pub int-dec : (n : ℕ) → int (dec n) ≡ some (pos n)
unfolding int dec
int-dec n = rw (strip-AllDigits (dec n) (dec-AllDigits n)) (
    signed-AllDigits (dec n) (dec-AllDigits n)
    ∙ ap positive (digits-to_dec (suc n) n [] false (omega arith)))

pub has_char-AllDigits : (c : ℕ) (t : Text) → 57 < c → AllDigits t → has_char c t ≡ false
unfolding has_char
has_char-AllDigits c [] l h = refl
has_char-AllDigits c (x ∷ t) l (d, h) = ground (arith, has_char-AllDigits c t l h)

to_dec-nonempty : (f n : ℕ) (c : ℕ) (acc : Text) → is_empty (to_dec f n (c ∷ acc)) ≡ false
unfolding to_dec
to_dec-nonempty zero n c acc = refl
to_dec-nonempty (suc f) n c acc = ground (arith, to_dec-nonempty f (n / 10) (48 + n % 10) (c ∷ acc))

pub dec-nonempty : (n : ℕ) → is_empty (dec n) ≡ false
unfolding dec
dec-nonempty n = ground (arith, to_dec-nonempty n (n / 10) (48 + n % 10) [])
