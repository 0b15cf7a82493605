-- ===== src/Gui/LogServer/Stream.antt =====
-- The lines that GUI/backend/coordinator_log_server.py reads from a connection, with the parser of
-- GUI/backend/log_parser.py.
use smartedge.Base.{
  ℕ, suc, ◌≤◌, ◌≡◌, refl, Bool, false, Option, none, some, List, [], ◌∷◌, ◌++◌, arith,
}
use smartedge.Base.{Text, ◌==◌, leb, length, if◌then◌else◌}
use smartedge.Base.Bytes.{Bytes, prepend, has_char}
use smartedge.Gui.LogParser.{LogLine, parse_log_line}
use smartedge.Gui.LogServer.{LogEntry, LogServer, handle_tcp_client}

-- The lines of a stream, each with its line feed, where it has one.
unfoldable pub cut_lines : Bytes → List Bytes
cut_lines [] = []
cut_lines (b ∷ bs) =
    let rest = cut_lines bs in if b == b'\n' then (b ∷ []) ∷ rest else prepend b rest

unfoldable pub before_feed : Bytes → ℕ
before_feed [] = 0
before_feed (b ∷ bs) = let rest = before_feed bs in if b == b'\n' then 0 else suc rest

-- `readline` raises at a line of more than 64 KiB, which ends the connection.
unfoldable pub within_limit : List Bytes → List Bytes
unfolding before_feed
within_limit [] = []
within_limit (l ∷ ls) =
    let rest = within_limit ls in if leb (before_feed l) 65536 then l ∷ rest else []

unfoldable pub read_lines : Bytes → List Bytes
unfolding cut_lines within_limit
read_lines bytes = within_limit (cut_lines bytes)

-- A stream that begins with a whole line.
cut_lines-line :
    (line rest : Bytes)
    → has_char b'\n' line ≡ false
    → cut_lines (line ++ b'\n' ∷ rest) ≡ (line ++ b'\n' ∷ []) ∷ cut_lines rest
unfolding cut_lines has_char
cut_lines-line [] rest h = refl
cut_lines-line (b ∷ line) rest h = ground (arith, h, cut_lines-line line rest)

before_feed-line :
    (line rest : Bytes)
    → has_char b'\n' line ≡ false
    → before_feed (line ++ b'\n' ∷ rest) ≡ length line
unfolding before_feed has_char
before_feed-line [] rest h = refl
before_feed-line (b ∷ line) rest h = ground (arith, h, before_feed-line line rest)

pub read_lines-line :
    (line rest : Bytes)
    → has_char b'\n' line ≡ false
    → length line ≤ 65536
    → read_lines (line ++ b'\n' ∷ rest) ≡ (line ++ b'\n' ∷ []) ∷ read_lines rest
unfolding read_lines within_limit
read_lines-line line rest h short =
    rw (cut_lines-line line rest h) (ground (arith, short, before_feed-line line [] h))

-- Each line with whether the browser can be sent to when it is read.
unfoldable pub flagged : (ℕ → Bool) → ℕ → List Bytes → List (Bytes × Bool)
flagged takes n [] = []
flagged takes n (l ∷ ls) = (l, takes n) ∷ flagged takes (suc n) ls

abbrev pub log_entry : LogLine → LogEntry
log_entry l = record { type = l.type; source = l.source; message = l.message }

module _ (is_word is_decimal : ℕ → Bool) where
  abbrev entry_of : Option LogLine → Option LogEntry
  entry_of none = none
  entry_of (some l) = some (log_entry l)

  unfoldable pub parsed_entry : Text → Option LogEntry
  parsed_entry line = entry_of (parse_log_line is_word is_decimal line)

  -- A connection, from the bytes that arrive.
  unfoldable pub handle_stream : (Text → Text) → (ℕ → Bool) → Bytes → LogServer → LogServer
  unfolding read_lines flagged parsed_entry handle_tcp_client
  handle_stream upper takes bytes s =
      handle_tcp_client upper parsed_entry (flagged takes 0 (read_lines bytes)) s
