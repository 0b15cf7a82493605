-- ===== src/Gui/LogParser.antt =====
-- GUI/backend/log_parser.py: the regular expression for a line of the log. Each piece of it takes
-- characters from the front, as many as it can; what `\w` and `\d` match is an argument. No piece
-- but the last two can take a character with which the next one begins, so only there another
-- choice than the longest is ever tried.
pub mod Pieces
pub mod Laws
use smartedge.Base.{ℕ, zero, suc, Bool, true, false, Option, none, some, [], ◌∷◌, ◌++◌, ◌&&◌, ◌||◌}
use smartedge.Base.{Text, ◌==◌, if◌then◌else◌}
use smartedge.Base.Bytes.{is_space, strip}

-- The groups of a match.
pub record LogLine : Type 0 where
  pub type : Text
  pub source : Text
  pub timestamp : Text
  pub level : Text
  pub message : Text

-- A piece gives what it matched and what is behind.
abbrev pub Match : Type 0 → Type 0
Match A = Text → Option (A × Text)

module _ {A B : Type 0} where
  abbrev then_match : Option (A × Text) → (A → Match B) → Option (B × Text)
  then_match none f = none
  then_match (some (a, rest)) f = f a rest

  infixl 10 ◌>>=◌ ◌>>◌
  unfoldable pub ◌>>=◌ : Match A → (A → Match B) → Match B
  ◌>>=◌ m f t = then_match (m t) f

  abbrev pub ◌>>◌ : Match A → Match B → Match B
  m >> n = m >>= λ _. n

abbrev pub matched : {A : Type 0} → A → Match A
matched a t = some (a, t)

abbrev with_front : ℕ → Text × Text → Text × Text
with_front c (a, rest) = (c ∷ a, rest)

-- The longest front whose characters satisfy the test.
unfoldable pub span : (ℕ → Bool) → Text → Text × Text
span p [] = ([], [])
span p (c ∷ t) = let rest = span p t in if p c then with_front c rest else ([], c ∷ t)

-- `p*`
unfoldable pub many : (ℕ → Bool) → Match Text
unfolding span
many p t = some (span p t)

-- `p+`
unfoldable pub many1 : (ℕ → Bool) → Match Text
unfolding span
many1 p [] = none
many1 p (c ∷ t) = if p c then some (with_front c (span p t)) else none

-- `p{n}`
unfoldable pub exactly : ℕ → (ℕ → Bool) → Match Text
exactly zero p t = some ([], t)
exactly (suc n) p [] = none
exactly (suc n) p (c ∷ t) =
    let rest : Option (Text × Text) = elim (exactly n p t) [
      | none ↦ none
      | some r ↦ some (with_front c r)
    ] in
    if p c then rest else none

abbrev pub literal : ℕ → Match Text
literal d = exactly 1 (λ c. c == d)

abbrev pub is_quote : ℕ → Bool
is_quote c = c == b'\'' || c == b'"'

-- `['"]?`
unfoldable pub optional_quote : Match Text
optional_quote [] = some ([], [])
optional_quote (c ∷ t) = if is_quote c then some (c ∷ [], t) else some ([], c ∷ t)

unfoldable pub all_spaces : Text → Bool
all_spaces [] = true
all_spaces (c ∷ t) = is_space c && all_spaces t

-- `['"]?\s*$`
unfoldable pub at_end : Text → Bool
unfolding all_spaces
at_end [] = true
at_end (c ∷ t) = is_quote c && all_spaces t || all_spaces (c ∷ t)

abbrev cons_text : ℕ → Option Text → Option Text
cons_text c none = none
cons_text c (some t) = some (c ∷ t)

-- `(.+?)['"]?\s*$`: the shortest message after which the end can follow. A dot is no line feed.
unfoldable pub shortest : Text → Option Text
unfolding at_end
shortest [] = none
shortest (c ∷ t) =
    let longer = shortest t in
    if c == b'\n' then none else if at_end t then some (c ∷ []) else cons_text c longer

-- `\s*(.+?)['"]?\s*$`: as much white space as possible goes first.
unfoldable pub message_of : Text → Option Text
unfolding shortest
message_of [] = none
message_of (c ∷ t) =
    let further = message_of t in
    let here = shortest (c ∷ t) in
    if is_space c then (elim further [ none ↦ here | some m ↦ some m ]) else here

module _ (is_word is_decimal : ℕ → Bool) where
  -- `[…]` around the group.
  unfoldable pub bracketed : (ℕ → Bool) → Match Text
  unfolding many1 exactly ◌>>=◌
  bracketed p = do literal b'['; a ← many1 p; literal b']'; matched a

  -- `\d{4}-\d{2}-\d{2}\s+\d{2}:\d{2}:\d{2}`
  unfoldable pub timestamp : Match Text
  unfolding many1 exactly ◌>>=◌
  timestamp = do
    y ← exactly 4 is_decimal
    d1 ← literal b'-'
    mo ← exactly 2 is_decimal
    d2 ← literal b'-'
    d ← exactly 2 is_decimal
    gap ← many1 is_space
    h ← exactly 2 is_decimal
    c1 ← literal b':'
    mi ← exactly 2 is_decimal
    c2 ← literal b':'
    s ← exactly 2 is_decimal
    matched (y ++ (d1 ++ (mo ++ (d2 ++ (d ++ (gap ++ (h ++ (c1 ++ (mi ++ (c2 ++ s))))))))))

  -- The level and the message, behind the groups that were matched.
  unfoldable pub from_level : Text → Text → Text → Match LogLine
  unfolding bracketed exactly message_of ◌>>=◌
  from_level log_type source stamp = do
    level ← bracketed is_word
    literal b':'
    λ rest. elim (message_of rest) [
      | none ↦ none
      | some m ↦ some (
        record { type = log_type; source = source; timestamp = stamp; level = level; message = m },
        [],
      )
    ]

  unfoldable pub from_stamp : Text → Text → Match LogLine
  unfolding timestamp many1 from_level ◌>>=◌
  from_stamp log_type source = do
    stamp ← timestamp
    many1 is_space
    from_level log_type source stamp

  unfoldable pub from_source : Text → Match LogLine
  unfolding bracketed many1 from_stamp ◌>>=◌
  from_source log_type = do
    source ← bracketed (λ c. is_word c || is_space c)
    many1 is_space
    from_stamp log_type source

  -- The pattern, on a line without white space at its ends.
  unfoldable pub log_line : Match LogLine
  unfolding many many1 optional_quote bracketed from_source ◌>>=◌
  log_line = do
    many is_space
    optional_quote
    log_type ← bracketed is_word
    many1 is_space
    from_source log_type

  unfoldable pub parse_log_line : Text → Option LogLine
  unfolding log_line strip
  parse_log_line line = elim (log_line (strip line)) [ none ↦ none | some (l, _) ↦ some l ]
