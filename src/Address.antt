-- ===== src/Address.antt =====
-- lib/helper_functions.py: MAC and IPv4 addresses by number, and `extract_numbers`. Python's
-- `ipaddress` is modelled for version 4.
pub mod Mac
pub mod Ip
pub mod Numbers
pub mod Machine
use smartedge.Base.{
  ℕ, zero, suc, ◌+◌, ◌-◌, ◌*◌, ◌/◌, ◌%◌, ◌^◌, Bool, true, false, Option, none, some,
}
use smartedge.Base.{List, [], ◌∷◌, ◌++◌, ◌&&◌, ◌||◌, not}
use smartedge.Base.{Text, codes, ltb, leb, ◌==◌, if◌then◌else◌, length, All, is_empty}
use smartedge.Base.Bytes.{split}
use smartedge.Base.Decimal.{dec, is_digit}
use smartedge.Base.Hex.{hex_digit}
use smartedge.Base.Exec.{Result, ok, raised, value_error}

-- The hexadecimal digits of `n` in front of those already written.
unfoldable pub to_hex : ℕ → ℕ → Text → Text
to_hex zero n acc = acc
to_hex (suc f) n acc =
    let rest = to_hex f (n / 16) (hex_digit (n % 16) ∷ acc) in
    if ltb n 16 then hex_digit n ∷ acc else rest

abbrev pub zeros : ℕ → Text
zeros zero = []
zeros (suc k) = b'0' ∷ zeros k

-- `'{:012x}'.format(n)`
unfoldable pub hex12 : ℕ → Text
hex12 n = let t = to_hex (suc n) n [] in zeros (12 - length t) ++ t

-- `':'.join` of the pairs that `zip(*[iter(t)] * 2)` gives; a last odd digit is left out.
unfoldable pub colon_pairs : Text → Text
colon_pairs [] = []
colon_pairs (a ∷ []) = []
colon_pairs (a ∷ b ∷ []) = a ∷ b ∷ []
colon_pairs (a ∷ b ∷ c ∷ []) = a ∷ b ∷ []
colon_pairs (a ∷ b ∷ c ∷ d ∷ t) = a ∷ b ∷ b':' ∷ colon_pairs (c ∷ d ∷ t)

-- `int_to_mac`
unfoldable pub int_to_mac : ℕ → Text
int_to_mac n = colon_pairs (hex12 n)

-- `str(address)`
unfoldable pub ip_text : ℕ → Text
ip_text a =
    dec (a / 16777216)
    ++ b'.' ∷ (dec (a / 65536 % 256) ++ b'.' ∷ (dec (a / 256 % 256) ++ b'.' ∷ dec (a % 256)))

-- `address + host_id`, which raises past the last address.
unfoldable pub ip_add : ℕ → ℕ → Result ℕ
ip_add a host_id = if ltb (a + host_id) (2 ^ 32) then ok (a + host_id) else raised value_error

-- `assign_virtual_mac_and_ip_by_host_id`: the MAC address and the IP address.
unfoldable pub assign_virtual_mac_and_ip_by_host_id : ℕ → ℕ → Result (Text × Text)
unfolding ip_add
assign_virtual_mac_and_ip_by_host_id subnet host_id = elim (ip_add subnet host_id) [
  | raised e ↦ raised e
  | ok a ↦ ok (int_to_mac a, ip_text a)
]

digits_value : ℕ → Text → Option ℕ
unfolding is_digit
digits_value acc [] = some acc
digits_value acc (c ∷ cs) =
    let rest = digits_value (acc * 10 + (c - 48)) cs in if is_digit c then rest else none

-- One octet: one to three ASCII digits, no leading zero, at most 255.
octet : Text → Option ℕ
unfolding digits_value
octet [] = none
octet (c ∷ cs) =
    if ltb 3 (length (c ∷ cs)) || (c == b'0' && not (is_empty cs))
    then none
    else elim (digits_value 0 (c ∷ cs)) [
      | none ↦ none
      | some n ↦ if leb n 255 then some n else none
    ]

from_octets : Option ℕ → Option ℕ → Option ℕ → Option ℕ → Result ℕ
from_octets (some a) (some b) (some c) (some d) = ok (((a * 256 + b) * 256 + c) * 256 + d)
from_octets _ _ _ _ = raised value_error

from_parts : List Text → Result ℕ
unfolding octet from_octets
from_parts (a ∷ b ∷ c ∷ d ∷ []) = from_octets (octet a) (octet b) (octet c) (octet d)
from_parts _ = raised value_error

-- `ipaddress.ip_address(text)`
unfoldable pub ip_address : Text → Result ℕ
unfolding from_parts
ip_address t = from_parts (split b'.' t)

-- The number that is being read, if the last character was a digit.
numbers : Option ℕ → Text → List ℕ
unfolding is_digit
numbers none [] = []
numbers (some n) [] = n ∷ []
numbers none (c ∷ cs) =
    let inside = numbers (some (c - 48)) cs in
    let outside = numbers none cs in if is_digit c then inside else outside
numbers (some n) (c ∷ cs) =
    let inside = numbers (some (n * 10 + (c - 48))) cs in
    let outside = n ∷ numbers none cs in if is_digit c then inside else outside

-- `extract_numbers`: the runs of digits of each text, as numbers.
unfoldable pub extract_numbers : List Text → List ℕ
unfolding numbers
extract_numbers [] = []
extract_numbers (t ∷ ts) = numbers none t ++ extract_numbers ts
