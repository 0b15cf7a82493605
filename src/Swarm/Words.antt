-- ===== src/Swarm/Words.antt =====
-- The two regular expressions with which lib/bmv2_thrift_lib.py reads the answers of a switch.
use smartedge.Base.{ℕ, ◌+◌, ◌*◌, Bool, true, false, not, Option, none, some, List, [], ◌∷◌}
use smartedge.Base.{◌&&◌, ◌||◌, ◌==◌, Text, leb, is_empty, if◌then◌else◌}
use smartedge.Base.Decimal.{is_digit}
use smartedge.Base.Hex.{hex_value}

is_word : ℕ → Bool
is_word c = leb 48 c && leb c 57 || leb 65 c && leb c 90 || leb 97 c && leb c 122 || c == b'_'

-- The runs of word characters; what stands between two of them may add empty ones.
word_runs : Text → List Text
unfolding is_word
word_runs [] = [] ∷ []
word_runs (c ∷ cs) = elim (word_runs cs) [
  | [] ↦ if is_word c then (c ∷ []) ∷ [] else [] ∷ []
  | r ∷ rs ↦ if is_word c then (c ∷ r) ∷ rs else [] ∷ r ∷ rs
]

all_digits : Text → Bool
unfolding is_digit
all_digits [] = true
all_digits (c ∷ cs) = is_digit c && all_digits cs

first_number : List Text → Option Text
unfolding all_digits
first_number [] = none
first_number (r ∷ rs) = if not (is_empty r) && all_digits r then some r else first_number rs

-- `re.findall(r'\b\d+\b', line)[0]`
unfoldable pub decimal_word : Text → Option Text
unfolding word_runs first_number
decimal_word line = first_number (word_runs line)

-- The value of the hexadecimal digits at the front of a text.
hex_run : ℕ → Text → ℕ
unfolding hex_value
hex_run acc [] = acc
hex_run acc (c ∷ cs) = elim (hex_value c) [ none ↦ acc | some v ↦ hex_run (acc * 16 + v) cs ]

abbrev is_hex : ℕ → Bool
is_hex c = elim (hex_value c) [ none ↦ false | some v ↦ true ]

-- `int(re.findall(r'0x[0-9A-F]+', line, re.I)[0], 16)`
unfoldable pub hex_word : Text → Option ℕ
unfolding hex_run
hex_word [] = none
hex_word (a ∷ []) = none
hex_word (a ∷ b ∷ []) = none
hex_word (a ∷ b ∷ c ∷ cs) =
    let rest = hex_word (b ∷ c ∷ cs) in
    if a == b'0' && (b == b'x' || b == b'X') && is_hex c then some (hex_run 0 (c ∷ cs)) else rest
