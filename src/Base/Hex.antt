-- ===== src/Base/Hex.antt =====
-- `binascii.hexlify(data).decode()` and `bytes.fromhex(text)`.
use Prim.Native.Nat.{ℕ, ◌+◌, ◌-◌, ◌*◌, ◌/◌, ◌%◌, ◌<◌}
use mathlib.Core.Path.{◌≡◌, refl}
use mathlib.Core.Bool.{◌&&◌}
use mathlib.Core.Option.{Option, none, some}
use mathlib.Core.List.{[], ◌∷◌}
use native.Mathlib.Omega.{arith}
use smartedge.Base.Tests.{ltb, leb, if◌then◌else◌}
use smartedge.Base.Eq.{Text}
use smartedge.Base.Lists.{All}
use smartedge.Base.Bytes.{Bytes, is_blank}

-- One lower-case digit of a value below 16.
unfoldable pub hex_digit : ℕ → ℕ
hex_digit n = if ltb n 10 then 48 + n else 87 + n

unfoldable pub hex_value : ℕ → Option ℕ
hex_value c =
    if leb 48 c && leb c 57
    then some (c - 48)
    else if leb 97 c && leb c 102
    then some (c - 87)
    else if leb 65 c && leb c 70
    then some (c - 55)
    else none

unfoldable pub hexlify : Bytes → Text
unfolding hex_digit
hexlify [] = []
hexlify (b ∷ bs) = hex_digit (b / 16) ∷ hex_digit (b % 16) ∷ hexlify bs

abbrev pair : Option ℕ → Option ℕ → Option Bytes → Option Bytes
pair (some hi) (some lo) (some bs) = some ((hi * 16 + lo) ∷ bs)
pair _ _ _ = none

-- White space may stand between the pairs of digits. `none` is a `ValueError`.
unfoldable pub from_hex : Text → Option Bytes
unfolding hex_value is_blank
from_hex [] = some []
from_hex (c ∷ []) = if is_blank c then some [] else none
from_hex (c ∷ d ∷ cs) =
    let skipped = from_hex (d ∷ cs) in
    let taken = pair (hex_value c) (hex_value d) (from_hex cs) in
    if is_blank c then skipped else taken

abbrev pub AllBytes : Bytes → Type 0
AllBytes = All (λ b. b < 256)

hex_value-digit : (n : ℕ) → n < 16 → hex_value (hex_digit n) ≡ some n
unfolding hex_value hex_digit
hex_value-digit n h = ground arith

pub from_hex-hexlify : (bs : Bytes) → AllBytes bs → from_hex (hexlify bs) ≡ some bs
unfolding from_hex hexlify
from_hex-hexlify [] h = refl
from_hex-hexlify (b ∷ bs) (small, h) =
    ground (arith, hex_value-digit (b / 16), hex_value-digit (b % 16), from_hex-hexlify bs h)
