-- ===== src/Base/Bytes.antt =====
-- Python's operations on texts and byte strings that the program uses: `split`, `strip`, `in`.
pub mod Ends
pub mod Split
use smartedge.Base.Tests.{leb, ◌==◌, if◌then◌else◌}
use smartedge.Base.Lists.{All, length}
use smartedge.Base.Eq.{Text}
use Prim.Native.Nat.{ℕ, zero, suc, ◌-◌}
use mathlib.Core.Path.{◌≡◌, refl}
use mathlib.Core.Bool.{Bool, true, false, ◌&&◌, ◌||◌}
use mathlib.Core.Option.{Option, none, some}
use mathlib.Core.List.{List, [], ◌∷◌, ◌++◌}
use native.Mathlib.Omega.{arith}

abbrev pub Bytes : Type 0
Bytes = List ℕ

-- '|'
abbrev pub bar : ℕ
bar = 124

abbrev pub prepend : ℕ → List Bytes → List Bytes
prepend c [] = (c ∷ []) ∷ []
prepend c (p ∷ ps) = (c ∷ p) ∷ ps

-- `text.split(c)` at a single character.
unfoldable pub split : ℕ → Text → List Text
split c [] = [] ∷ []
split c (x ∷ xs) = let rest = split c xs in if x == c then [] ∷ rest else prepend x rest

-- `data.split(b"||")`: separators are taken from the left and do not overlap.
unfoldable pub split_pair : Bytes → List Bytes
split_pair [] = [] ∷ []
split_pair (a ∷ []) = (a ∷ []) ∷ []
split_pair (a ∷ b ∷ rest) = elim (a == bar && b == bar) [
  | true ↦ [] ∷ split_pair rest
  | false ↦ prepend a (split_pair (b ∷ rest))
]

-- `b"||" in data`
unfoldable pub has_pair : Bytes → Bool
has_pair [] = false
has_pair (a ∷ []) = false
has_pair (a ∷ b ∷ rest) = a == bar && b == bar || has_pair (b ∷ rest)

-- `c in text` for a single character.
unfoldable pub has_char : ℕ → Text → Bool
has_char c [] = false
has_char c (x ∷ xs) = x == c || has_char c xs

-- `text.split(c, 1)` where `c` occurs: what stands before and after the first occurrence.
unfoldable pub split_once : ℕ → Text → Option (Text × Text)
split_once c [] = none
split_once c (x ∷ xs) =
    let rest : Option (Text × Text) = elim (split_once c xs) [
      | none ↦ none
      | some (a, b) ↦ some (x ∷ a, b)
    ] in
    if x == c then some ([], xs) else rest

unfoldable pub starts_with : Text → Text → Bool
starts_with [] t = true
starts_with (p ∷ ps) [] = false
starts_with (p ∷ ps) (c ∷ cs) = c == p && starts_with ps cs

-- `needle in text`
unfoldable pub contains_text : Text → Text → Bool
unfolding starts_with
contains_text needle [] = starts_with needle []
contains_text needle (c ∷ cs) = starts_with needle (c ∷ cs) || contains_text needle cs

-- `str.isspace` of one character.
unfoldable pub is_space : ℕ → Bool
is_space c =
    leb 9 c && leb c 13
    || leb 28 c && leb c 32
    || c == 133
    || c == 160
    || c == 0x1680
    || leb 0x2000 c && leb c 0x200a
    || c == 0x2028
    || c == 0x2029
    || c == 0x202f
    || c == 0x205f
    || c == 0x3000

module _ (p : ℕ → Bool) where
  lstrip : Text → Text
  lstrip [] = []
  lstrip (c ∷ cs) = let rest = lstrip cs in if p c then rest else c ∷ cs

  rstrip : Text → Text
  rstrip [] = []
  rstrip (c ∷ cs) = elim (rstrip cs) [ [] ↦ if p c then [] else c ∷ [] | d ∷ ds ↦ c ∷ d ∷ ds ]

-- `text.strip()`
unfoldable pub strip : Text → Text
unfolding lstrip rstrip
strip t = rstrip is_space (lstrip is_space t)

-- White space of ASCII, as `bytes` knows it.
unfoldable pub is_blank : ℕ → Bool
is_blank c = leb 9 c && leb c 13 || c == 32

-- `data.strip()`
unfoldable pub strip_bytes : Bytes → Bytes
unfolding lstrip rstrip is_blank
strip_bytes t = rstrip is_blank (lstrip is_blank t)

-- A part that has no "||" in it and cannot form one with a separator on its right stays whole.
pub split_pair-append :
    (p rest : Bytes)
    → has_pair (p ++ bar ∷ []) ≡ false
    → split_pair (p ++ bar ∷ bar ∷ rest) ≡ p ∷ split_pair rest
unfolding split_pair has_pair
split_pair-append [] rest h = refl
split_pair-append (a ∷ []) rest h = ground arith
split_pair-append (a ∷ b ∷ p) rest h = ground (arith, split_pair-append (b ∷ p) rest)

-- A part with no "||" in it is not split.
pub split_pair-whole : (p : Bytes) → has_pair p ≡ false → split_pair p ≡ p ∷ []
unfolding split_pair has_pair
split_pair-whole [] h = refl
split_pair-whole (a ∷ []) h = refl
split_pair-whole (a ∷ b ∷ p) h = ground (arith, split_pair-whole (b ∷ p))

-- A part without the separator, followed by one.
pub split-append :
    (c : ℕ) (p rest : Text) → has_char c p ≡ false → split c (p ++ c ∷ rest) ≡ p ∷ split c rest
unfolding split has_char
split-append c [] rest h = ground arith
split-append c (x ∷ p) rest h = ground (arith, split-append c p rest)

pub split-whole : (c : ℕ) (p : Text) → has_char c p ≡ false → split c p ≡ p ∷ []
unfolding split has_char
split-whole c [] h = refl
split-whole c (x ∷ p) h = ground (arith, split-whole c p)

pub has_char-append : (c : ℕ) (s t : Text) → has_char c (s ++ t) ≡ (has_char c s || has_char c t)
unfolding has_char
has_char-append c [] t = refl
has_char-append c (x ∷ s) t = ground (arith, has_char-append c s t)

-- A part with no bar in front changes nothing.
pub has_pair-append : (s t : Bytes) → has_char bar s ≡ false → has_pair (s ++ t) ≡ has_pair t
unfolding has_char has_pair
has_pair-append [] t h = refl
has_pair-append (a ∷ []) [] h = refl
has_pair-append (a ∷ []) (b ∷ t) h = ground arith
has_pair-append (a ∷ b ∷ s) t h = ground (arith, has_pair-append (b ∷ s) t)

rstrip-no_space : (t : Text) → All (λ c. is_space c ≡ false) t → rstrip is_space t ≡ t
unfolding rstrip
rstrip-no_space [] h = refl
rstrip-no_space (c ∷ []) h = ground arith
rstrip-no_space (c ∷ d ∷ t) (_, h) = rw (rstrip-no_space (d ∷ t) h)

-- A text without white space is not changed by `strip`.
pub strip-no_space : (t : Text) → All (λ c. is_space c ≡ false) t → strip t ≡ t
unfolding strip
strip-no_space [] h = refl
strip-no_space (c ∷ t) h = ground (arith, rstrip-no_space (c ∷ t) h)

-- The line boundaries of `str.splitlines`.
unfoldable pub is_break : ℕ → Bool
is_break c = leb 10 c && leb c 13 || leb 28 c && leb c 30 || c == 133 || c == 0x2028 || c == 0x2029

-- `text.splitlines()`; a carriage return with a line feed is one boundary.
unfoldable pub splitlines : Text → List Text
unfolding is_break
splitlines [] = []
splitlines (c ∷ []) = if is_break c then [] ∷ [] else (c ∷ []) ∷ []
splitlines (c ∷ d ∷ cs) =
    let after_pair = splitlines cs in
    let rest = splitlines (d ∷ cs) in
    if c == 13 && d == 10 then [] ∷ after_pair else if is_break c then [] ∷ rest else prepend c rest

-- The rest of a split, with the characters of a separator still to be passed over.
split_from : Text → ℕ → Text → List Text
unfolding starts_with
split_from sep k [] = [] ∷ []
split_from sep (suc k) (c ∷ cs) = split_from sep k cs
split_from sep zero (c ∷ cs) =
    let after = split_from sep (length sep - 1) cs in
    let rest = split_from sep zero cs in
    if starts_with sep (c ∷ cs) then [] ∷ after else prepend c rest

-- `text.split(sep)` at a longer separator.
unfoldable pub split_text : Text → Text → List Text
unfolding split_from
split_text sep t = split_from sep zero t

-- `' '.join(texts)`
unfoldable pub join_spaces : List Text → Text
join_spaces [] = []
join_spaces (t ∷ []) = t
join_spaces (t ∷ u ∷ ts) = t ++ 32 ∷ join_spaces (u ∷ ts)

nonempty_texts : List Text → List Text
nonempty_texts [] = []
nonempty_texts ([] ∷ ts) = nonempty_texts ts
nonempty_texts ((c ∷ t) ∷ ts) = (c ∷ t) ∷ nonempty_texts ts

pieces : Text → List Text
unfolding is_space
pieces [] = [] ∷ []
pieces (c ∷ cs) = let rest = pieces cs in if is_space c then [] ∷ rest else prepend c rest

-- `text.split()`: the words between white space.
unfoldable pub words : Text → List Text
unfolding nonempty_texts pieces
words t = nonempty_texts (pieces t)

-- `text.replace(c, '')` for a single character.
unfoldable pub remove_char : ℕ → Text → Text
remove_char c [] = []
remove_char c (x ∷ xs) = let rest = remove_char c xs in if x == c then rest else x ∷ rest
