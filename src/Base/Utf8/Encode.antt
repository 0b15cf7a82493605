-- ===== src/Base/Utf8/Encode.antt =====
-- What is encoded is read back.
use Prim.Native.Nat.{ℕ, suc, ◌+◌, ◌-◌, ◌*◌, ◌/◌, ◌%◌, ◌<◌, ◌≤◌}
use mathlib.Core.Path.{◌≡◌, refl, ap, ◌∙◌}
use mathlib.Core.Logic.{◌≢◌, ◌⊎◌, inl, inr}
use mathlib.Core.Bool.{true, false}
use mathlib.Core.Option.{some}
use mathlib.Core.List.{[], ◌∷◌}
use native.Mathlib.Omega.{arith}
use smartedge.Base.Tests.{ltb, if◌then◌else◌, Bool-cases}
use smartedge.Base.Eq.{Text}
use smartedge.Base.Lists.{All}
use smartedge.Base.Bytes.{Bytes}
use smartedge.Base.Utf8.{cons, within, decode_from, decode, encode}

-- A code point that is no surrogate.
abbrev pub IsScalar : ℕ → Type 0
IsScalar c = (c < 55296) ⊎ ((57344 ≤ c) × (c < 1114112))

-- The last continuation byte.
last_byte :
    (acc b : ℕ) (lo hi : ℕ) (bs : Bytes)
    → lo ≤ b
    → b ≤ hi
    → decode_from 1 lo hi acc (b ∷ bs) ≡ cons (acc * 64 + (b - 128)) (decode bs)
unfolding decode_from decode
last_byte acc b lo hi bs h k = ground (arith, h, k)

next_byte :
    (n acc b : ℕ) (lo hi : ℕ) (bs : Bytes)
    → lo ≤ b
    → b ≤ hi
    → decode_from (suc (suc n)) lo hi acc (b ∷ bs)
      ≡ decode_from (suc n) 128 191 (acc * 64 + (b - 128)) bs
unfolding decode_from
next_byte n acc b lo hi bs h k = ground (arith, h, k)

ascii_head : (b : ℕ) (bs : Bytes) → b < 128 → decode (b ∷ bs) ≡ cons b (decode bs)
unfolding decode_from decode
ascii_head b bs h = ground (arith, h)

two_head :
    (b : ℕ) (bs : Bytes) → 194 ≤ b → b ≤ 223 → decode (b ∷ bs) ≡ decode_from 1 128 191 (b - 192) bs
unfolding decode_from decode
two_head b bs h k = ground (arith, h, k)

abbrev low_of : ℕ → ℕ
low_of b = if within 224 224 b then 160 else 128

abbrev high_of : ℕ → ℕ
high_of b = if within 237 237 b then 159 else 191

three_head :
    (b : ℕ) (bs : Bytes)
    → 224 ≤ b
    → b ≤ 239
    → decode (b ∷ bs) ≡ decode_from 2 (low_of b) (high_of b) (b - 224) bs
unfolding decode_from decode
three_head b bs h k =
    let ascii : ltb b 128 ≡ false = ground (arith, h) in
    let two : within 194 223 b ≡ false = ground (arith, h) in
    let three : within 224 239 b ≡ true = ground (arith, h, k) in rw (ascii, two, three) refl

abbrev low4_of : ℕ → ℕ
low4_of b = if within 240 240 b then 144 else 128

abbrev high4_of : ℕ → ℕ
high4_of b = if within 244 244 b then 143 else 191

four_head :
    (b : ℕ) (bs : Bytes)
    → 240 ≤ b
    → b ≤ 244
    → decode (b ∷ bs) ≡ decode_from 3 (low4_of b) (high4_of b) (b - 240) bs
unfolding decode_from decode
four_head b bs h k =
    let ascii : ltb b 128 ≡ false = ground (arith, h) in
    let two : within 194 223 b ≡ false = ground (arith, h) in
    let three : within 224 239 b ≡ false = ground (arith, h) in
    let four : within 240 244 b ≡ true = ground (arith, h, k) in rw (ascii, two, three, four) refl

two_bytes :
    (c : ℕ) (bs : Bytes)
    → 128 ≤ c
    → c < 2048
    → decode ((192 + c / 64) ∷ (128 + c % 64) ∷ bs) ≡ cons c (decode bs)
two_bytes c bs h k =
    two_head (192 + c / 64) ((128 + c % 64) ∷ bs) (omega (arith, h)) (omega (arith, k))
    ∙ last_byte (192 + c / 64 - 192) (128 + c % 64) 128 191 bs (omega arith) (omega arith)
    ∙ ap (λ n. cons n (decode bs)) (omega arith)

exactly : (b n : ℕ) → within n n b ≡ true → b ≡ n
exactly b n h = ground (arith, h)

otherwise : (b n : ℕ) → within n n b ≡ false → b ≢ n
otherwise b n h e = ground (arith, h, e)

low_second : (c : ℕ) → 2048 ≤ c → low_of (224 + c / 4096) ≤ 128 + c / 64 % 64
low_second c h = elim (Bool-cases (within 224 224 (224 + c / 4096))) [
  | inl first ↦ let e = exactly (224 + c / 4096) 224 first in rw first (omega (arith, h, e))
  | inr other ↦ rw other (omega arith)
]

high_second : (c : ℕ) → IsScalar c → 128 + c / 64 % 64 ≤ high_of (224 + c / 4096)
high_second c v = elim (Bool-cases (within 237 237 (224 + c / 4096))) [
  | inr other ↦ rw other (omega arith)
  | inl before ↦
      let e = exactly (224 + c / 4096) 237 before in
      elim v [
        | inl below ↦ rw before (omega (arith, below, e))
        | inr (over, top) ↦ absurd (omega (arith, over, e))
      ]
]

low4_second : (c : ℕ) → 65536 ≤ c → low4_of (240 + c / 262144) ≤ 128 + c / 4096 % 64
low4_second c h = elim (Bool-cases (within 240 240 (240 + c / 262144))) [
  | inl first ↦ let e = exactly (240 + c / 262144) 240 first in rw first (omega (arith, h, e))
  | inr other ↦ rw other (omega arith)
]

high4_second : (c : ℕ) → c < 1114112 → 128 + c / 4096 % 64 ≤ high4_of (240 + c / 262144)
high4_second c h = elim (Bool-cases (within 244 244 (240 + c / 262144))) [
  | inl last ↦ let e = exactly (240 + c / 262144) 244 last in rw last (omega (arith, h, e))
  | inr other ↦ rw other (omega arith)
]

three_bytes :
    (c : ℕ) (bs : Bytes)
    → 2048 ≤ c
    → c < 65536
    → IsScalar c
    → decode ((224 + c / 4096) ∷ (128 + c / 64 % 64) ∷ (128 + c % 64) ∷ bs) ≡ cons c (decode bs)
three_bytes c bs h k v =
    let rest = (128 + c % 64) ∷ bs in
    three_head (224 + c / 4096) ((128 + c / 64 % 64) ∷ rest) (omega arith) (omega (arith, k))
    ∙ next_byte 0 (224 + c / 4096 - 224) (128 + c / 64 % 64) (low_of (224 + c / 4096))
        (high_of (224 + c / 4096)) rest (low_second c h) (high_second c v)
    ∙ last_byte ((224 + c / 4096 - 224) * 64 + (128 + c / 64 % 64 - 128)) (128 + c % 64) 128 191 bs
        (omega arith) (omega arith)
    ∙ ap (λ n. cons n (decode bs)) (omega arith)

four_bytes :
    (c : ℕ) (bs : Bytes)
    → 65536 ≤ c
    → c < 1114112
    → decode
        ((240 + c / 262144) ∷ (128 + c / 4096 % 64) ∷ (128 + c / 64 % 64) ∷ (128 + c % 64) ∷ bs)
      ≡ cons c (decode bs)
four_bytes c bs h k =
    let rest = (128 + c % 64) ∷ bs in
    let top = 240 + c / 262144 in
    let second = (top - 240) * 64 + (128 + c / 4096 % 64 - 128) in
    four_head top ((128 + c / 4096 % 64) ∷ (128 + c / 64 % 64) ∷ rest) (omega arith)
      (omega (arith, k))
    ∙ next_byte 1 (top - 240) (128 + c / 4096 % 64) (low4_of top) (high4_of top)
        ((128 + c / 64 % 64) ∷ rest) (low4_second c h) (high4_second c k)
    ∙ next_byte 0 second (128 + c / 64 % 64) 128 191 rest (omega arith) (omega arith)
    ∙ last_byte (second * 64 + (128 + c / 64 % 64 - 128)) (128 + c % 64) 128 191 bs (omega arith)
        (omega arith)
    ∙ ap (λ n. cons n (decode bs)) (omega arith)

scalar_top : (c : ℕ) → IsScalar c → c < 1114112
scalar_top c (inl below) = omega (arith, below)
scalar_top c (inr (over, top)) = top

decode_nil : decode [] ≡ some []
unfolding decode decode_from
decode_nil = refl

-- Every text without surrogates is read back from its encoding.
pub decode-encode : (t : Text) → All IsScalar t → decode (encode t) ≡ some t
unfolding encode
decode-encode [] h = decode_nil
decode-encode (c ∷ t) (v, h) =
    let rest = ap (cons c) (decode-encode t h) in
    elim (Bool-cases (ltb c 128)) [
      | inl one ↦ rw one (ascii_head c (encode t) (ground (arith, one)) ∙ rest)
      | inr many ↦ elim (Bool-cases (ltb c 2048)) [
        | inl two ↦
            rw (many, two)
              (two_bytes c (encode t) (ground (arith, many)) (ground (arith, two)) ∙ rest)
        | inr more ↦ elim (Bool-cases (ltb c 65536)) [
          | inl three ↦
              rw (many, more, three)
                (three_bytes c (encode t) (ground (arith, more)) (ground (arith, three)) v ∙ rest)
          | inr four ↦
              rw (many, more, four)
                (four_bytes c (encode t) (ground (arith, four)) (scalar_top c v) ∙ rest)
        ]
      ]
    ]
