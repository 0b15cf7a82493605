-- ===== src/Base/Utf8.antt =====
-- `data.decode("utf-8")`, strict.
pub mod Encode
use Prim.Native.Nat.{ℕ, zero, suc, ◌+◌, ◌-◌, ◌*◌, ◌/◌, ◌%◌, ◌<◌}
use mathlib.Core.Path.{◌≡◌, refl}
use mathlib.Core.Bool.{Bool, ◌&&◌}
use mathlib.Core.Option.{Option, none, some}
use mathlib.Core.List.{[], ◌∷◌}
use native.Mathlib.Omega.{arith}
use smartedge.Base.Tests.{ltb, leb, if◌then◌else◌}
use smartedge.Base.Eq.{Text}
use smartedge.Base.Lists.{All}
use smartedge.Base.Bytes.{Bytes}

abbrev cons : ℕ → Option Text → Option Text
cons c none = none
cons c (some t) = some (c ∷ t)

abbrev within : ℕ → ℕ → ℕ → Bool
within lo hi b = leb lo b && leb b hi

-- The number of continuation bytes still expected, the range of the next one, and the value of the
-- bits read. Overlong forms, surrogates and values past 0x10FFFF are errors.
decode_from : ℕ → ℕ → ℕ → ℕ → Bytes → Option Text
decode_from zero lo hi acc [] = some []
decode_from (suc k) lo hi acc [] = none
decode_from (suc zero) lo hi acc (b ∷ bs) =
    let rest = cons (acc * 64 + (b - 128)) (decode_from 0 128 191 0 bs) in
    if within lo hi b then rest else none
decode_from (suc (suc k)) lo hi acc (b ∷ bs) =
    let rest = decode_from (suc k) 128 191 (acc * 64 + (b - 128)) bs in
    if within lo hi b then rest else none
decode_from zero lo hi acc (b ∷ bs) =
    let ascii = cons b (decode_from 0 128 191 0 bs) in
    let two = decode_from 1 128 191 (b - 192) bs in
    let three = λ (l h : ℕ). decode_from 2 l h (b - 224) bs in
    let four = λ (l h : ℕ). decode_from 3 l h (b - 240) bs in
    if ltb b 128
    then ascii
    else if within 194 223 b
    then two
    else if within 224 239 b
    then three (if within 224 224 b then 160 else 128) (if within 237 237 b then 159 else 191)
    else if within 240 244 b
    then four (if within 240 240 b then 144 else 128) (if within 244 244 b then 143 else 191)
    else none

-- `none` for a `UnicodeDecodeError`.
unfoldable pub decode : Bytes → Option Text
unfolding decode_from
decode bs = decode_from 0 128 191 0 bs

abbrev pub IsAscii : Text → Type 0
IsAscii = All (λ c. c < 128)

-- An ASCII text is its own encoding.
pub decode-IsAscii : (t : Text) → IsAscii t → decode t ≡ some t
unfolding decode
decode-IsAscii [] h = refl
decode-IsAscii (c ∷ t) (small, h) = ground (arith, decode-IsAscii t h)

-- `text.encode()`; surrogates, which raise in Python, do not occur in the program's texts.
unfoldable pub encode : Text → Bytes
encode [] = []
encode (c ∷ t) =
    let rest = encode t in
    if ltb c 0x80
    then c ∷ rest
    else if ltb c 0x800
    then (192 + c / 64) ∷ (128 + c % 64) ∷ rest
    else if ltb c 0x10000
    then (224 + c / 4096) ∷ (128 + c / 64 % 64) ∷ (128 + c % 64) ∷ rest
    else (240 + c / 262144) ∷ (128 + c / 4096 % 64) ∷ (128 + c / 64 % 64) ∷ (128 + c % 64) ∷ rest

pub encode-IsAscii : (t : Text) → IsAscii t → encode t ≡ t
unfolding encode
encode-IsAscii [] h = refl
encode-IsAscii (c ∷ t) (small, h) = ground (arith, encode-IsAscii t h)
