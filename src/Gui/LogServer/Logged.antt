-- ===== src/Gui/LogServer/Logged.antt =====
-- From a handler of lib/logger_utils.py to the buffers of GUI/backend/coordinator_log_server.py.
use smartedge.Base.{
  ℕ, suc, ◌≤◌, ◌<◌, ◌≡◌, refl, sym, ap, ap₂, ◌∙◌, Bool, true, false, Option, none, List, [], ◌∷◌,
  ◌++◌, map, arith,
}
use smartedge.Base.{Text, length, length-append, All, All-append, or_default, is_empty}
use mathlib.Core.List.{append_assoc, append-nil}
use smartedge.Base.Bytes.{Bytes, has_char, has_char-append, strip}
use smartedge.Base.Utf8.{encode, IsAscii, encode-IsAscii, decode-IsAscii}
use smartedge.Logging.{
  LogRecord, Formatter, log_head, format, wire, Network, sent, SocketStreamHandler, emit, emits,
}
use smartedge.Gui.LogParser.Pieces.{IsMessage, IsNamed}
use smartedge.Gui.LogParser.Laws.{
  strip-format, strip-log_head, parse_log_line-format, parse_log_line-log_head,
}
use smartedge.Gui.LogServer.{LogEntry, LogServer, entry_of_line, raw_entry}
use smartedge.Gui.LogServer.Laws.{IsLatest, entries, handle_tcp_client-IsLatest}
use smartedge.Gui.LogServer.Stream.{
  cut_lines, within_limit, read_lines, read_lines-line, flagged, parsed_entry, handle_stream,
}

-- The network is up.
abbrev pub reliable : List LogRecord → List (Network × LogRecord)
reliable [] = []
reliable (r ∷ rs) = (record { connects = true; sends = sent }, r) ∷ reliable rs

abbrev pub sent_bytes : SocketStreamHandler → Bytes
sent_bytes h = or_default h.sock []

unfoldable pub stream : Formatter → List LogRecord → Bytes
stream f [] = []
stream f (r ∷ rs) = wire f r ++ stream f rs

sent-emit :
    (f : Formatter) (r : LogRecord) (h : SocketStreamHandler)
    → sent_bytes (emit f (record { connects = true; sends = sent }) r h) ≡ sent_bytes h ++ wire f r
unfolding emit
sent-emit f r h = ground (arith)

sent-emits :
    (f : Formatter) (rs : List LogRecord) (h : SocketStreamHandler)
    → sent_bytes (emits f (reliable rs) h) ≡ sent_bytes h ++ stream f rs
unfolding emits stream
sent-emits f [] h = sym (append-nil (sent_bytes h))
sent-emits f (r ∷ rs) h =
    let up : Network = record { connects = true; sends = sent } in
    sent-emits f rs (emit f up r h)
    ∙ ap (λ b. b ++ stream f rs) (sent-emit f r h)
    ∙ append_assoc (sent_bytes h) (wire f r) (stream f rs)

-- What the log server keeps of a record.
unfoldable pub kept : Formatter → LogRecord → LogEntry
kept f r = record { type = f.log_type; source = f.source; message = r.message }

module _ (is_word is_decimal : ℕ → Bool) (upper : Text → Text) where
  abbrev parse : Text → Option LogEntry
  parse = parsed_entry is_word is_decimal

  -- A line of ASCII characters is read as it was written.
  entries-line :
      (line stripped rest : Text) (takes : ℕ → Bool) (n : ℕ)
      → has_char b'\n' line ≡ false
      → length line ≤ 65536
      → IsAscii (line ++ b'\n' ∷ [])
      → strip (line ++ b'\n' ∷ []) ≡ stripped
      → is_empty stripped ≡ false
      → entries upper parse (flagged takes n (read_lines (line ++ b'\n' ∷ rest)))
        ≡ entry_of_line upper parse stripped
          ∷ entries upper parse (flagged takes (suc n) (read_lines rest))
  unfolding entries flagged
  entries-line line stripped rest takes n feed short ascii s full =
      ap (λ ls. entries upper parse (flagged takes n ls)) (read_lines-line line rest feed short)
      ∙ ground (arith, decode-IsAscii (line ++ b'\n' ∷ []) ascii, s, full)

  -- A record whose line the pattern matches, of ASCII characters and at most 64 KiB.
  unfoldable pub IsLogged : Formatter → LogRecord → Type 0
  IsLogged f r =
      IsNamed is_word is_decimal f r
      × IsMessage r.message
      × IsAscii (format f r ++ b'\n' ∷ [])
      × (has_char b'\n' (format f r) ≡ false)
      × (length (format f r) ≤ 65536)

  module _ (digits : (c : ℕ) → 48 ≤ c → c ≤ 57 → is_decimal c ≡ true)
      (closing : is_word b']' ≡ false) where
    format-nonempty : (f : Formatter) (r : LogRecord) → is_empty (format f r) ≡ false
    unfolding format log_head
    format-nonempty f r = refl

    entry-format :
        (f : Formatter) (r : LogRecord)
        → IsNamed is_word is_decimal f r
        → IsMessage r.message
        → entry_of_line upper parse (format f r) ≡ kept f r
    unfolding entry_of_line parsed_entry kept
    entry-format f r named message =
        rw (parse_log_line-format is_word is_decimal digits f r closing named message) refl

    wire-IsAscii :
        (f : Formatter) (r : LogRecord)
        → IsAscii (format f r ++ b'\n' ∷ [])
        → wire f r ≡ format f r ++ b'\n' ∷ []
    unfolding wire
    wire-IsAscii f r ascii = encode-IsAscii (format f r ++ b'\n' ∷ []) ascii

    entries-stream :
        (f : Formatter) (rs : List LogRecord) (takes : ℕ → Bool) (n : ℕ)
        → All (IsLogged f) rs
        → entries upper parse (flagged takes n (read_lines (stream f rs))) ≡ map (kept f) rs
    unfolding stream IsLogged
    entries-stream f [] takes n h = unfold read_lines cut_lines within_limit flagged entries in refl
    entries-stream f (r ∷ rs) takes n ((named, message, ascii, feed, short), h) =
        ap (λ b. entries upper parse (flagged takes n (read_lines (b ++ stream f rs))))
          (wire-IsAscii f r ascii)
        ∙ ap (λ b. entries upper parse (flagged takes n (read_lines b)))
            (append_assoc (format f r) (b'\n' ∷ []) (stream f rs))
        ∙ entries-line (format f r) (format f r) (stream f rs) takes n feed short ascii
            (strip-format is_word is_decimal digits f r message) (format-nonempty f r)
        ∙ ap₂ (◌∷◌) (entry-format f r named message) (entries-stream f rs takes (suc n) h)

    -- Where the buffers hold the last 1000 entries of a list, the records that a handler sends
    -- over a connection that never fails are appended to that list, one entry for each with its
    -- type, source and message, and the buffers go on holding its last 1000, for ASCII records
    -- whose names, levels and messages the pattern matches and whose lines are at most 64 KiB
    -- without a line feed.
    pub emits-IsLatest :
        (f : Formatter) (rs : List LogRecord) (takes : ℕ → Bool) (t source : Text)
        (all : List LogEntry) (s : LogServer)
        → All (IsLogged f) rs
        → IsLatest upper t source all s
        → IsLatest upper t source (all ++ map (kept f) rs) (
            handle_stream is_word is_decimal upper takes
              (sent_bytes (emits f (reliable rs) (record { sock = none; earlier = [] })))
              s)
    unfolding handle_stream
    emits-IsLatest f rs takes t source all s h latest_before =
        rw (sent-emits f rs (record { sock = none; earlier = [] }), ← entries-stream f rs takes 0 h)
          (handle_tcp_client-IsLatest upper t source parse
            (flagged takes 0 (read_lines (stream f rs))) s all latest_before)

    entry-log_head :
        (f : Formatter) (r : LogRecord)
        → IsNamed is_word is_decimal f r
        → entry_of_line upper parse (log_head f r) ≡ raw_entry upper parse (log_head f r)
    unfolding entry_of_line parsed_entry
    entry-log_head f r named =
        rw (parse_log_line-log_head is_word is_decimal digits f r closing named) refl

    log_head-nonempty : (f : Formatter) (r : LogRecord) → is_empty (log_head f r) ≡ false
    unfolding log_head
    log_head-nonempty f r = refl

    log_head-message :
        (f : Formatter) (r : LogRecord) (m : Text)
        → log_head f (record r { message = m }) ≡ log_head f r
    unfolding log_head
    log_head-message f r m = refl

    -- The bytes of a record whose message begins with a line feed.
    wire-feed :
        (f : Formatter) (r : LogRecord) (m : Text)
        → IsAscii (log_head f r)
        → IsAscii m
        → wire f (record r { message = b'\n' ∷ m })
          ≡ (log_head f r ++ b' ' ∷ []) ++ b'\n' ∷ (m ++ b'\n' ∷ [])
    unfolding wire format
    wire-feed f r m head_ascii ascii =
        let end = b' ' ∷ b'\n' ∷ (m ++ b'\n' ∷ []) in
        ap (λ h. encode ((h ++ b' ' ∷ b'\n' ∷ m) ++ b'\n' ∷ [])) (log_head-message f r (b'\n' ∷ m))
        ∙ ap encode (append_assoc (log_head f r) (b' ' ∷ b'\n' ∷ m) (b'\n' ∷ []))
        ∙ encode-IsAscii (log_head f r ++ end) (
            All-append (λ c. c < 128) (log_head f r) end head_ascii
              (
                omega arith,
                (omega arith, All-append (λ c. c < 128) m (b'\n' ∷ []) ascii (omega arith)),
              ))
        ∙ sym (append_assoc (log_head f r) (b' ' ∷ []) (b'\n' ∷ (m ++ b'\n' ∷ [])))

    -- A record of ASCII characters whose message begins with a line feed loses its structure: the
    -- server makes a raw entry of the front of the line, and reads what is behind the line feed as
    -- lines of their own.
    pub entries-feed :
        (f : Formatter) (r : LogRecord) (m : Text) (takes : ℕ → Bool) (n : ℕ)
        → IsNamed is_word is_decimal f r
        → IsAscii (log_head f r)
        → IsAscii m
        → has_char b'\n' (log_head f r) ≡ false
        → length (log_head f r) < 65536
        → entries upper parse
            (flagged takes n (read_lines (wire f (record r { message = b'\n' ∷ m }))))
          ≡ raw_entry upper parse (log_head f r)
            ∷ entries upper parse (flagged takes (suc n) (read_lines (m ++ b'\n' ∷ [])))
    entries-feed f r m takes n named head_ascii ascii feed short =
        let line = log_head f r ++ b' ' ∷ [] in
        let text : line ++ b'\n' ∷ [] ≡ log_head f r ++ b' ' ∷ b'\n' ∷ [] =
          append_assoc (log_head f r) (b' ' ∷ []) (b'\n' ∷ []) in
        ap (λ b. entries upper parse (flagged takes n (read_lines b)))
          (wire-feed f r m head_ascii ascii)
        ∙ entries-line line (log_head f r) (m ++ b'\n' ∷ []) takes n
            (has_char-append b'\n' (log_head f r) (b' ' ∷ []) ∙ rw feed (unfold has_char in refl))
            (omega (arith, short, length-append (log_head f r) (b' ' ∷ [])))
            (rw text (
              All-append (λ c. c < 128) (log_head f r) (b' ' ∷ b'\n' ∷ []) head_ascii
                (omega arith)))
            (ap strip text ∙ strip-log_head is_word is_decimal digits f r) (log_head-nonempty f r)
        ∙ ap (λ e. e ∷ entries upper parse (flagged takes (suc n) (read_lines (m ++ b'\n' ∷ []))))
            (entry-log_head f r named)
