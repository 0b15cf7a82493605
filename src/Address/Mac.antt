-- ===== src/Address/Mac.antt =====
-- MAC addresses determine the number that they were made from.
use smartedge.Base.{ℕ, zero, suc, ◌+◌, ◌-◌, ◌*◌, ◌/◌, ◌%◌, ◌^◌, ◌≤◌, ◌<◌, ◌≡◌, refl, ap, ◌∙◌}
use smartedge.Base.{
  [], ◌∷◌, ◌++◌, inl, inr, Bool-cases, ltb, lt→ltb, leb, ◌==◌, if◌then◌else◌, arith,
}
use smartedge.Base.{Text, length, length-append}
use smartedge.Base.Hex.{hex_digit}
use native.Mathlib.Nat.{pow-suc}
use smartedge.Address.{to_hex, zeros, hex12, colon_pairs, int_to_mac}

-- The value of a lower-case hexadecimal digit.
abbrev digit_value : ℕ → ℕ
digit_value c = if leb 97 c then c - 87 else c - 48

-- The number that a text of digits and colons stands for.
unfoldable pub mac_value : ℕ → Text → ℕ
mac_value acc [] = acc
mac_value acc (c ∷ cs) = mac_value (if c == b':' then acc else acc * 16 + digit_value c) cs

mac_value-hex_digit :
    (acc n : ℕ) (t : Text) → n < 16 → mac_value acc (hex_digit n ∷ t) ≡ mac_value (acc * 16 + n) t
unfolding mac_value hex_digit
mac_value-hex_digit acc n t h = ap (λ k. mac_value k t) (ground arith)

pub mac_value-to_hex : (f n : ℕ) (t : Text) → n < f → mac_value 0 (to_hex f n t) ≡ mac_value n t
unfolding to_hex
mac_value-to_hex zero n t h = elim h [ ]
mac_value-to_hex (suc f) n t h = elim (Bool-cases (ltb n 16)) [
  | inl low ↦
      rw low (mac_value-hex_digit 0 n t (ground arith) ∙ ap (λ k. mac_value k t) (omega arith))
  | inr high ↦ rw high (
      mac_value-to_hex f (n / 16) (hex_digit (n % 16) ∷ t) (ground arith)
      ∙ mac_value-hex_digit (n / 16) (n % 16) t (omega arith)
      ∙ ap (λ k. mac_value k t) (omega arith))
]

-- A quotient below the next power, where there is one.
div-lt_pow : (n k : ℕ) → n < 16 ^ suc (suc k) → n / 16 < 16 ^ suc k
div-lt_pow n k h = omega (arith, pow-suc 16 (suc k))

pub length-to_hex :
    (f n k : ℕ) (t : Text) → n < 16 ^ suc k → length (to_hex f n t) ≤ suc k + length t
unfolding to_hex
length-to_hex zero n k t h = omega arith
length-to_hex (suc f) n zero t h = rw (lt→ltb n 16 (omega (arith, pow-suc 16 zero))) (omega arith)
length-to_hex (suc f) n (suc k) t h = elim (Bool-cases (ltb n 16)) [
  | inl low ↦ rw low (omega arith)
  | inr high ↦
      rw high
        (omega (arith, length-to_hex f (n / 16) k (hex_digit (n % 16) ∷ t) (div-lt_pow n k h)))
]

pub mac_value-zeros : (k : ℕ) (t : Text) → mac_value 0 (zeros k ++ t) ≡ mac_value 0 t
unfolding mac_value
mac_value-zeros zero t = refl
mac_value-zeros (suc k) t = mac_value-zeros k t

pub mac_value-colon_pairs :
    (m : ℕ) (acc : ℕ) (t : Text)
    → length t ≡ m + m
    → mac_value acc (colon_pairs t) ≡ mac_value acc t
unfolding mac_value colon_pairs
mac_value-colon_pairs m acc [] h = refl
mac_value-colon_pairs m acc (a ∷ []) h = absurd (omega arith)
mac_value-colon_pairs m acc (a ∷ b ∷ []) h = refl
mac_value-colon_pairs m acc (a ∷ b ∷ c ∷ []) h = absurd (omega arith)
mac_value-colon_pairs m acc (a ∷ b ∷ c ∷ d ∷ t) h =
    mac_value-colon_pairs (m - 1) _ (c ∷ d ∷ t) (omega arith)

pub length-zeros : (k : ℕ) → length (zeros k) ≡ k
length-zeros zero = refl
length-zeros (suc k) = ap suc (length-zeros k)

length-hex12 : (n : ℕ) → n < 2 ^ 48 → length (hex12 n) ≡ 12
unfolding hex12
length-hex12 n h =
    let t = to_hex (suc n) n [] in
    length-append (zeros (12 - length t)) t
    ∙ omega (arith, length-zeros (12 - length t), length-to_hex (suc n) n 11 [] h)

pub mac_value-hex12 : (n : ℕ) → mac_value 0 (hex12 n) ≡ n
unfolding hex12
mac_value-hex12 n =
    mac_value-zeros (12 - length (to_hex (suc n) n [])) (to_hex (suc n) n [])
    ∙ mac_value-to_hex (suc n) n [] (omega arith)
    ∙ unfold mac_value in refl

-- The digits of a MAC address that is made from a number below 2 ^ 48 have that number as their
-- value.
pub mac_value-int_to_mac : (n : ℕ) → n < 2 ^ 48 → mac_value 0 (int_to_mac n) ≡ n
unfolding int_to_mac
mac_value-int_to_mac n h =
    mac_value-colon_pairs 6 0 (hex12 n) (length-hex12 n h) ∙ mac_value-hex12 n
