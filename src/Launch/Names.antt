-- ===== src/Launch/Names.antt =====
-- The name of a node by its own account, and by that of an access point, which derives it from the
-- MAC address.
use smartedge.Base.{
  ℕ, zero, suc, ◌+◌, ◌-◌, ◌*◌, ◌/◌, ◌%◌, ◌^◌, ◌≤◌, ◌<◌, ◌≡◌, refl, sym, ap, ◌∙◌, true, false, [],
  ◌∷◌, ◌++◌, arith, inl, inr,
}
use smartedge.Base.{
  Text, codes, ◌=?◌, =?_iff, ltb, leb, ◌==◌, drop, length, length-append, Bool-cases, if◌then◌else◌,
}
use smartedge.Base.Bytes.{remove_char}
use smartedge.Base.Decimal.{dec, to_dec}
use smartedge.Base.Hex.{hex_digit}
use smartedge.Address.{zeros, to_hex, hex12, colon_pairs, int_to_mac}
use smartedge.Address.Mac.{
  mac_value, mac_value-zeros, mac_value-colon_pairs, mac_value-to_hex, length-to_hex, length-zeros,
}
use smartedge.AccessPoint.Connect.{node_uuid}
use smartedge.Launch.{sn, role_name, dec6, self_uuid_str}

-- The digits of a decimal number read to the base 16.
abbrev misread : ℕ → ℕ → ℕ
misread zero n = 0
misread (suc f) n = let rest = misread f (n / 10) in if ltb n 10 then n else rest * 16 + n % 10

misread-below : (f n : ℕ) → n < 10 → n < f → misread f n ≡ n
misread-below zero n h k = elim k [ ]
misread-below (suc f) n h k = ground (arith, h)

misread-least : (f n : ℕ) → n < f → n ≤ misread f n
misread-least zero n h = elim h [ ]
misread-least (suc f) n h = elim (Bool-cases (ltb n 10)) [
  | inl low ↦ rw low (omega arith)
  | inr high ↦
      let tenth : n / 10 < f = ground (arith, h, high) in
      rw high (omega (arith, misread-least f (n / 10) tenth))
]

misread-more : (f n : ℕ) → n < f → 10 ≤ n → n < misread f n
misread-more zero n h k = elim h [ ]
misread-more (suc f) n h k =
    let high : ltb n 10 ≡ false = ground (arith, k) in
    let tenth : n / 10 < f = omega (arith, h, k) in
    rw high (omega (arith, misread-least f (n / 10) tenth, k))

mac_value-digit :
    (acc d : ℕ) (t : Text) → d < 10 → mac_value acc ((48 + d) ∷ t) ≡ mac_value (acc * 16 + d) t
unfolding mac_value
mac_value-digit acc d t h = ap (λ k. mac_value k t) (ground (arith, h))

mac_value-to_dec :
    (f n : ℕ) (t : Text) → n < f → mac_value 0 (to_dec f n t) ≡ mac_value (misread f n) t
unfolding to_dec
mac_value-to_dec zero n t h = elim h [ ]
mac_value-to_dec (suc f) n t h = elim (Bool-cases (ltb n 10)) [
  | inl low ↦
      rw low (mac_value-digit 0 n t (ground (arith, low)) ∙ ap (λ k. mac_value k t) (omega arith))
  | inr high ↦
      let tenth : n / 10 < f = ground (arith, h, high) in
      rw high (
        mac_value-to_dec f (n / 10) ((48 + n % 10) ∷ t) tenth
        ∙ mac_value-digit (misread f (n / 10)) (n % 10) t (omega arith))
]

mac_value-dec6 : (n : ℕ) → mac_value 0 (dec6 n) ≡ misread (suc n) n
unfolding dec6 dec
mac_value-dec6 n =
    mac_value-zeros (6 - length (to_dec (suc n) n [])) (to_dec (suc n) n [])
    ∙ mac_value-to_dec (suc n) n [] (omega arith)
    ∙ unfold mac_value in refl

remove-other :
    (c : ℕ) (t : Text) (acc : ℕ)
    → (c == b':') ≡ false
    → mac_value acc (c ∷ remove_char b':' t)
      ≡ mac_value (acc * 16 + (if leb 97 c then c - 87 else c - 48)) (remove_char b':' t)
unfolding mac_value
remove-other c t acc h = rw (mac_value, h) refl

mac_value-remove_char : (t : Text) (acc : ℕ) → mac_value acc (remove_char b':' t) ≡ mac_value acc t
unfolding mac_value remove_char
mac_value-remove_char [] acc = refl
mac_value-remove_char (c ∷ t) acc = elim (Bool-cases (c == b':')) [
  | inl here ↦ rw here (mac_value-remove_char t acc)
  | inr there ↦ rw there (remove-other c t acc there ∙ mac_value-remove_char t _)
]

after_zeros :
    (rest : Text) → length rest ≡ 6 → drop 9 (colon_pairs (zeros 6 ++ rest)) ≡ colon_pairs rest
unfolding colon_pairs
after_zeros [] h = absurd (omega (arith, h))
after_zeros (a ∷ []) h = absurd (omega (arith, h))
after_zeros (a ∷ b ∷ rest) h = refl

zeros-add : (j k : ℕ) (t : Text) → zeros (j + k) ++ t ≡ zeros j ++ (zeros k ++ t)
zeros-add zero k t = ap (λ i. zeros i ++ t) (omega arith)
zeros-add (suc j) k t =
    let same : suc j + k ≡ suc (j + k) = omega arith in
    ap (λ i. zeros i ++ t) same ∙ ap (λ r. b'0' ∷ r) (zeros-add j k t)

-- The last six digits of a MAC address of three bytes.
suffix : (n : ℕ) → n < 2 ^ 24 → mac_value 0 (remove_char b':' (drop 9 (int_to_mac n))) ≡ n
unfolding int_to_mac hex12
suffix n h =
    let t = to_hex (suc n) n [] in
    let short : length t ≤ 6 = length-to_hex (suc n) n 5 [] h in
    let padded : zeros (12 - length t) ++ t ≡ zeros 6 ++ (zeros (6 - length t) ++ t) =
      ap (λ i. zeros i ++ t) (omega (arith, short)) ∙ zeros-add 6 (6 - length t) t in
    let six : length (zeros (6 - length t) ++ t) ≡ 6 =
      length-append (zeros (6 - length t)) t ∙ omega (arith, short, length-zeros (6 - length t)) in
    mac_value-remove_char (drop 9 (int_to_mac n)) 0
    ∙ ap (λ u. mac_value 0 (drop 9 (colon_pairs u))) padded
    ∙ ap (mac_value 0) (after_zeros (zeros (6 - length t) ++ t) six)
    ∙ mac_value-colon_pairs 3 0 (zeros (6 - length t) ++ t) (six ∙ omega arith)
    ∙ mac_value-zeros (6 - length t) t
    ∙ mac_value-to_hex (suc n) n [] (omega arith)
    ∙ unfold mac_value in refl

low_names : (n : ℕ) → n < 10 → (node_uuid (int_to_mac n) =? self_uuid_str sn n) ≡ true
unfolding node_uuid int_to_mac hex12 to_hex colon_pairs self_uuid_str role_name dec6 dec to_dec ◌=?◌
    codes remove_char hex_digit
low_names zero h = refl
low_names (suc zero) h = refl
low_names (suc (suc zero)) h = refl
low_names (suc (suc (suc zero))) h = refl
low_names (suc (suc (suc (suc zero)))) h = refl
low_names (suc (suc (suc (suc (suc zero))))) h = refl
low_names (suc (suc (suc (suc (suc (suc zero)))))) h = refl
low_names (suc (suc (suc (suc (suc (suc (suc zero))))))) h = refl
low_names (suc (suc (suc (suc (suc (suc (suc (suc zero)))))))) h = refl
low_names (suc (suc (suc (suc (suc (suc (suc (suc (suc zero))))))))) h = refl
low_names (suc (suc (suc (suc (suc (suc (suc (suc (suc (suc n)))))))))) h =
    absurd (omega (arith, h))

high_names : (n : ℕ) → 10 ≤ n → n < 2 ^ 24 → node_uuid (int_to_mac n) ≡ self_uuid_str sn n → ⊥
unfolding node_uuid self_uuid_str role_name codes
high_names n k h same =
    let value : n ≡ misread (suc n) n =
      sym (suffix n h) ∙ (ap (λ t. mac_value 0 (drop 2 t)) same ∙ mac_value-dec6 n) in
    omega (arith, value, misread-more (suc n) n (omega arith) k)

-- For a node with a number below 2 ^ 24, the name that an access point derives from its MAC
-- address is the name that the node gives itself exactly where the number is below ten.
pub node_uuid-self_uuid_str :
    (n : ℕ) → n < 2 ^ 24 → (node_uuid (int_to_mac n) =? self_uuid_str sn n) ≡ ltb n 10
node_uuid-self_uuid_str n h = elim (Bool-cases (ltb n 10)) [
  | inl low ↦ low_names n (ground (arith, low)) ∙ sym low
  | inr high ↦ elim (Bool-cases (node_uuid (int_to_mac n) =? self_uuid_str sn n)) [
    | inl same ↦ absurd (
        high_names n (ground (arith, high)) h
          ((=?_iff (node_uuid (int_to_mac n)) (self_uuid_str sn n)).0 same))
    | inr differ ↦ differ ∙ sym high
  ]
]
