-- ===== src/Address/Numbers.antt =====
-- `extract_numbers` reads back the numbers of a list that Python prints.
use smartedge.Base.{
  ℕ, zero, suc, ◌+◌, ◌*◌, ◌/◌, ◌%◌, ◌<◌, ◌≡◌, refl, sym, ap, ◌∙◌, false, none, some, List, [], ◌∷◌,
  ◌++◌, inl, inr, arith,
}
use smartedge.Base.{Text, ltb, Bool-cases}
use mathlib.Core.List.{append-nil}
use smartedge.Base.Bytes.{has_char, has_char-append}
use smartedge.Base.Decimal.{dec, to_dec, is_digit, dec-AllDigits, has_char-AllDigits}
use smartedge.Address.{numbers, extract_numbers}

-- `', '.join(map(str, ns))`
unfoldable pub join_commas : List ℕ → Text
join_commas [] = []
join_commas (n ∷ []) = dec n
join_commas (n ∷ m ∷ ns) = dec n ++ b',' ∷ b' ' ∷ join_commas (m ∷ ns)

to_dec-append : (f n : ℕ) (acc t : Text) → to_dec f n acc ++ t ≡ to_dec f n (acc ++ t)
unfolding to_dec
to_dec-append zero n acc t = refl
to_dec-append (suc f) n acc t = ground (arith, to_dec-append f (n / 10) ((48 + n % 10) ∷ acc) t)

numbers-digit :
    (a d : ℕ) (t : Text) → d < 10 → numbers (some a) ((48 + d) ∷ t) ≡ numbers (some (a * 10 + d)) t
unfolding numbers is_digit
numbers-digit a d t h = ground (arith, h)

numbers-first : (d : ℕ) (t : Text) → d < 10 → numbers none ((48 + d) ∷ t) ≡ numbers (some d) t
unfolding numbers is_digit
numbers-first d t h = ground (arith, h)

numbers-to_dec : (f n : ℕ) (t : Text) → n < f → numbers none (to_dec f n t) ≡ numbers (some n) t
unfolding to_dec
numbers-to_dec zero n t h = elim h [ ]
numbers-to_dec (suc f) n t h = elim (Bool-cases (ltb n 10)) [
  | inl low ↦ rw low (numbers-first n t (ground (arith, low)))
  | inr high ↦ rw high (
      numbers-to_dec f (n / 10) ((48 + n % 10) ∷ t) (ground (arith, high, h))
      ∙ numbers-digit (n / 10) (n % 10) t (omega arith)
      ∙ ap (λ k. numbers (some k) t) (omega arith))
]

numbers-dec : (n : ℕ) (t : Text) → numbers none (dec n ++ t) ≡ numbers (some n) t
unfolding dec
numbers-dec n t =
    ap (numbers none) (to_dec-append (suc n) n [] t) ∙ numbers-to_dec (suc n) n t (omega arith)

numbers-join_commas : (ns : List ℕ) → numbers none (join_commas ns) ≡ ns
unfolding join_commas numbers is_digit
numbers-join_commas [] = refl
numbers-join_commas (n ∷ []) = ap (numbers none) (sym (append-nil (dec n))) ∙ numbers-dec n []
numbers-join_commas (n ∷ m ∷ ns) =
    numbers-dec n (b',' ∷ b' ' ∷ join_commas (m ∷ ns)) ∙ ap (◌∷◌ n) (numbers-join_commas (m ∷ ns))

pub extract_numbers-join_commas : (ns : List ℕ) → extract_numbers (join_commas ns ∷ []) ≡ ns
unfolding extract_numbers
extract_numbers-join_commas ns = append-nil (numbers none (join_commas ns)) ∙ numbers-join_commas ns

-- Such a text is of digits, commas and spaces.
pub has_char-join_commas : (c : ℕ) (ns : List ℕ) → 57 < c → has_char c (join_commas ns) ≡ false
unfolding join_commas has_char
has_char-join_commas c [] h = refl
has_char-join_commas c (n ∷ []) h = has_char-AllDigits c (dec n) h (dec-AllDigits n)
has_char-join_commas c (n ∷ m ∷ ns) h = ground (
  arith,
  h,
  has_char-append c (dec n) (b',' ∷ b' ' ∷ join_commas (m ∷ ns)),
  has_char-AllDigits c (dec n) h (dec-AllDigits n),
  has_char-join_commas c (m ∷ ns) h,
)
