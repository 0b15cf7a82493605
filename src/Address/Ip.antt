-- ===== src/Address/Ip.antt =====
-- An IPv4 address is read back from its text.
use smartedge.Base.{
  ℕ, suc, ◌+◌, ◌-◌, ◌*◌, ◌/◌, ◌%◌, ◌^◌, ◌≤◌, ◌<◌, ◌≡◌, refl, ap, ◌∙◌, false, some, [], ◌∷◌, inl,
  inr, arith,
}
use smartedge.Base.{Text, ltb, Bool-cases}
use smartedge.Base.Bytes.{split, split-append, split-whole, has_char}
use smartedge.Base.Decimal.{dec, to_dec, is_digit, AllDigits, dec-AllDigits}
use smartedge.Base.Exec.{ok}
use smartedge.Address.{digits_value, octet, from_octets, from_parts, ip_address, ip_text}

-- The digits of an octet.
to_dec-one : (f n : ℕ) (acc : Text) → n < 10 → to_dec (suc f) n acc ≡ (48 + n) ∷ acc
unfolding to_dec
to_dec-one f n acc h = ground (arith, h)

to_dec-more :
    (f n : ℕ) (acc : Text) → 10 ≤ n → to_dec (suc f) n acc ≡ to_dec f (n / 10) ((48 + n % 10) ∷ acc)
unfolding to_dec
to_dec-more f n acc h = ground (arith, h)

octet-one : (a : ℕ) → a < 10 → octet ((48 + a) ∷ []) ≡ some a
unfolding octet digits_value is_digit
octet-one a h = ground (arith, h)

octet-two :
    (a b : ℕ) → 0 < a → a < 10 → b < 10 → octet ((48 + a) ∷ (48 + b) ∷ []) ≡ some (a * 10 + b)
unfolding octet digits_value is_digit
octet-two a b p h k = ground (arith, p, h, k)

octet-three :
    (a b c : ℕ)
    → 0 < a
    → a < 10
    → b < 10
    → c < 10
    → a * 100 + b * 10 + c < 256
    → octet ((48 + a) ∷ (48 + b) ∷ (48 + c) ∷ []) ≡ some (a * 100 + b * 10 + c)
unfolding octet digits_value is_digit
octet-three a b c p h k l small = ground (arith, p, h, k, l, small)

octet-high : (f n : ℕ) → 10 ≤ n → n < 256 → octet (to_dec (suc (suc (suc f))) n []) ≡ some n
octet-high f n low h = elim (Bool-cases (ltb n 100)) [
  | inl two ↦
      ap octet (
        to_dec-more (suc (suc f)) n [] low
        ∙ to_dec-one (suc f) (n / 10) ((48 + n % 10) ∷ []) (ground (arith, two)))
      ∙ octet-two (n / 10) (n % 10) (omega (arith, low)) (ground (arith, two)) (omega arith)
      ∙ ap some (omega arith)
  | inr three ↦
      ap octet (
        to_dec-more (suc (suc f)) n [] low
        ∙ to_dec-more (suc f) (n / 10) ((48 + n % 10) ∷ []) (ground (arith, three))
        ∙ to_dec-one f (n / 10 / 10) ((48 + n / 10 % 10) ∷ (48 + n % 10) ∷ []) (omega (arith, h)))
      ∙ octet-three (n / 10 / 10) (n / 10 % 10) (n % 10) (ground (arith, three)) (omega (arith, h))
          (omega arith) (omega arith) (omega (arith, h))
      ∙ ap some (omega arith)
]

octet-dec : (n : ℕ) → n < 256 → octet (dec n) ≡ some n
unfolding dec
octet-dec n h = elim (Bool-cases (ltb n 10)) [
  | inl low ↦ ap octet (to_dec-one n n [] (ground (arith, low))) ∙ octet-one n (ground (arith, low))
  | inr high ↦
      let deep : suc n ≡ suc (suc (suc (n - 2))) = ground (arith, high) in
      ap (λ f. octet (to_dec f n [])) deep ∙ octet-high (n - 2) n (ground (arith, high)) h
]

no_dot : (t : Text) → AllDigits t → has_char b'.' t ≡ false
unfolding has_char
no_dot [] h = refl
no_dot (c ∷ t) (d, h) = ground (arith, d, no_dot t h)

dec_no_dot : (n : ℕ) → has_char b'.' (dec n) ≡ false
dec_no_dot n = no_dot (dec n) (dec-AllDigits n)

split-ip_text :
    (a : ℕ)
    → split b'.' (ip_text a)
      ≡ dec (a / 16777216) ∷ dec (a / 65536 % 256) ∷ dec (a / 256 % 256) ∷ dec (a % 256) ∷ []
unfolding ip_text
split-ip_text a =
    split-append b'.' (dec (a / 16777216)) _ (dec_no_dot (a / 16777216))
    ∙ ap (λ r. dec (a / 16777216) ∷ r)
        (split-append b'.' (dec (a / 65536 % 256)) _ (dec_no_dot (a / 65536 % 256))
          ∙ ap (λ r. dec (a / 65536 % 256) ∷ r)
              (split-append b'.' (dec (a / 256 % 256)) _ (dec_no_dot (a / 256 % 256))
                ∙ ap (λ r. dec (a / 256 % 256) ∷ r)
                    (split-whole b'.' (dec (a % 256)) (dec_no_dot (a % 256)))))

-- X
pub ip_address-ip_text : (a : ℕ) → a < 2 ^ 32 → ip_address (ip_text a) ≡ ok a
unfolding ip_address from_parts
ip_address-ip_text a h =
    ap from_parts (split-ip_text a)
    ∙ rw
        (
          octet-dec (a / 16777216) (omega (arith, h)),
          octet-dec (a / 65536 % 256) (omega arith),
          octet-dec (a / 256 % 256) (omega arith),
          octet-dec (a % 256) (omega arith),
          from_octets,
        )
        (ap ok (omega arith))
