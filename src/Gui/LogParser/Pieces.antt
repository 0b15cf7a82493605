-- ===== src/Gui/LogParser/Pieces.antt =====
-- What the pieces of the pattern in GUI/backend/log_parser.py match in the lines of the log.
use smartedge.Base.{
  ℕ, ◌/◌, ◌≤◌, ◌≡◌, refl, Bool, true, false, not, some, [], ◌∷◌, ◌++◌, ◌&&◌, ◌||◌, arith,
}
use smartedge.Base.{Text, All, is_empty}
use smartedge.Base.Bytes.{is_space, has_char}
use smartedge.Base.Bytes.Ends.{ends_in, begins_in, no_space}
use smartedge.Logging.{Stamp, asctime, LogRecord, Formatter, digit}
use smartedge.Gui.LogParser.{
  ◌>>=◌, span, many1, exactly, is_quote, all_spaces, at_end, shortest, message_of, bracketed,
  timestamp,
}

-- A text of characters of the class, in front of one that is not.
span-All :
    (p : ℕ → Bool) (a : Text) (c : ℕ) (rest : Text)
    → All (λ x. p x ≡ true) a
    → p c ≡ false
    → span p (a ++ c ∷ rest) ≡ (a, c ∷ rest)
unfolding span
span-All p [] c rest h e = ground (arith, e)
span-All p (x ∷ a) c rest (here, h) e = rw (here, span-All p a c rest h e) refl

pub many1-All :
    (p : ℕ → Bool) (a : Text) (c : ℕ) (rest : Text)
    → is_empty a ≡ false
    → All (λ x. p x ≡ true) a
    → p c ≡ false
    → many1 p (a ++ c ∷ rest) ≡ some (a, c ∷ rest)
unfolding many1
many1-All p [] c rest full h e = ground (arith, full)
many1-All p (x ∷ a) c rest full (here, h) e = rw (here, span-All p a c rest h e) refl

pub digit-no_space : (n : ℕ) → is_space (digit n) ≡ false
unfolding is_space
digit-no_space n = ground arith

-- Neither white space nor a quote.
abbrev pub is_plain : ℕ → Bool
is_plain c = not (is_space c) && not (is_quote c)

all_spaces-ends : (t : Text) → ends_in is_plain t ≡ true → all_spaces t ≡ false
unfolding all_spaces ends_in
all_spaces-ends [] h = ground (arith, h)
all_spaces-ends (c ∷ []) h = ground (arith, h)
all_spaces-ends (c ∷ d ∷ t) h = ground (arith, all_spaces-ends (d ∷ t) h)

at_end-ends : (t : Text) → ends_in is_plain t ≡ true → at_end t ≡ false
unfolding at_end ends_in all_spaces
at_end-ends [] h = ground (arith, h)
at_end-ends (c ∷ []) h = ground (arith, h)
at_end-ends (c ∷ d ∷ t) h = ground (arith, all_spaces-ends (d ∷ t) h)

shortest-plain :
    (t : Text) → has_char b'\n' t ≡ false → ends_in is_plain t ≡ true → shortest t ≡ some t
unfolding shortest has_char ends_in at_end
shortest-plain [] l h = ground (arith, h)
shortest-plain (c ∷ []) l h = ground (arith, l)
shortest-plain (c ∷ d ∷ t) l h =
    ground (arith, l, h, at_end-ends (d ∷ t) h, shortest-plain (d ∷ t) (ground (arith, l)) h)

pub ends_in-plain : (t : Text) → ends_in is_plain t ≡ true → ends_in no_space t ≡ true
unfolding ends_in
ends_in-plain [] h = h
ends_in-plain (c ∷ []) h = ground (arith, h)
ends_in-plain (c ∷ d ∷ t) h = ends_in-plain (d ∷ t) h

-- A message as the loggers are mostly given it.
unfoldable pub IsMessage : Text → Type 0
IsMessage m =
    (begins_in no_space m ≡ true) × (ends_in is_plain m ≡ true) × (has_char b'\n' m ≡ false)

pub message_of-IsMessage : (m : Text) → IsMessage m → message_of (b' ' ∷ m) ≡ some m
unfolding message_of IsMessage begins_in is_space
message_of-IsMessage [] (b, e, l) = ground (arith, b)
message_of-IsMessage (c ∷ m) (b, e, l) = ground (arith, b, shortest-plain (c ∷ m) l e)

module _ (is_word is_decimal : ℕ → Bool) where
  abbrev pub is_source : ℕ → Bool
  is_source c = is_word c || is_space c

  -- The names of a logger and of a level are of the characters that the pattern wants.
  unfoldable pub IsNamed : Formatter → LogRecord → Type 0
  IsNamed f r =
      ((is_empty f.log_type ≡ false) × All (λ c. is_word c ≡ true) f.log_type)
      × ((is_empty f.source ≡ false) × All (λ c. is_source c ≡ true) f.source)
      × ((is_empty r.level ≡ false) × All (λ c. is_word c ≡ true) r.level)

  pub bracketed-All :
      (p : ℕ → Bool) (a rest : Text)
      → is_empty a ≡ false
      → All (λ x. p x ≡ true) a
      → p b']' ≡ false
      → bracketed is_word is_decimal p (b'[' ∷ (a ++ b']' ∷ rest)) ≡ some (a, rest)
  unfolding bracketed exactly ◌>>=◌
  bracketed-All p a rest full h e = rw (many1-All p a b']' rest full h e) refl

  module _ (digits : (c : ℕ) → 48 ≤ c → c ≤ 57 → is_decimal c ≡ true) where
    is_decimal-digit : (n : ℕ) → is_decimal (digit n) ≡ true
    is_decimal-digit n = digits (digit n) (omega arith) (omega arith)

    pub timestamp-asctime :
        (s : Stamp) (rest : Text)
        → timestamp is_word is_decimal (asctime s ++ rest) ≡ some (asctime s, rest)
    unfolding timestamp asctime exactly many1 span is_space ◌>>=◌
    timestamp-asctime s rest = ground (
      arith,
      is_decimal-digit (s.year / 1000),
      is_decimal-digit (s.year / 100),
      is_decimal-digit (s.year / 10),
      is_decimal-digit s.year,
      is_decimal-digit (s.month / 10),
      is_decimal-digit s.month,
      is_decimal-digit (s.day / 10),
      is_decimal-digit s.day,
      is_decimal-digit (s.hour / 10),
      is_decimal-digit s.hour,
      is_decimal-digit (s.minute / 10),
      is_decimal-digit s.minute,
      is_decimal-digit (s.second / 10),
      is_decimal-digit s.second,
      digit-no_space (s.hour / 10),
    )
