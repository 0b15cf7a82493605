-- ===== src/Logging.antt =====
-- lib/logger_utils.py: lines of the log, and the handler that sends them to the log server. `logging`
-- gives a record its time and level, and keeps one logger for each name.
use smartedge.Base.{ℕ, ◌+◌, ◌/◌, ◌%◌, Bool, Option, none, some, List, [], ◌∷◌, ◌++◌}
use smartedge.Base.{Text, take, if◌then◌else◌}
use smartedge.Base.Bytes.{Bytes}
use smartedge.Base.Utf8.{encode}
use smartedge.Base.Dict.{Dict, lookup, insert}

-- A time of the clock, of a year with four digits.
pub record Stamp : Type 0 where
  pub year : ℕ
  pub month : ℕ
  pub day : ℕ
  pub hour : ℕ
  pub minute : ℕ
  pub second : ℕ

abbrev pub digit : ℕ → ℕ
digit n = 48 + n % 10

abbrev pub two_digits : ℕ → Text
two_digits n = digit (n / 10) ∷ digit n ∷ []

abbrev pub four_digits : ℕ → Text
four_digits n = digit (n / 1000) ∷ digit (n / 100) ∷ digit (n / 10) ∷ digit n ∷ []

-- `%Y-%m-%d %H:%M:%S`
unfoldable pub asctime : Stamp → Text
asctime t =
    four_digits t.year
    ++ b'-'
      ∷ (two_digits t.month
          ++ b'-'
            ∷ (two_digits t.day
                ++ b' '
                  ∷ (two_digits t.hour
                      ++ b':' ∷ (two_digits t.minute ++ b':' ∷ two_digits t.second))))

pub record LogRecord : Type 0 where
  pub stamp : Stamp
  pub level : Text
  pub message : Text

pub record Formatter : Type 0 where
  pub log_type : Text
  pub source : Text

-- `[{log_type}] [{source}] %(asctime)s [%(levelname)s]: ` and the message.
unfoldable pub log_head : Formatter → LogRecord → Text
unfolding asctime
log_head f r =
    b'['
    ∷ (f.log_type
        ++ b']'
          ∷ b' '
          ∷ b'['
          ∷ (f.source
              ++ b']' ∷ b' ' ∷ (asctime r.stamp ++ b' ' ∷ b'[' ∷ (r.level ++ b']' ∷ b':' ∷ []))))

unfoldable pub format : Formatter → LogRecord → Text
unfolding log_head
format f r = log_head f r ++ b' ' ∷ r.message

-- What `create_connection` and `sendall` do in one `emit`; a `sendall` that fails may have sent any
-- number of bytes.
pub data Sending : Type 0 where
  sent : Sending
  failed : ℕ → Sending

pub record Network : Type 0 where
  pub connects : Bool
  pub sends : Sending

-- `sock`, with the bytes that went over it, and those of the connections before.
pub record SocketStreamHandler : Type 0 where
  pub sock : Option Bytes
  pub earlier : List Bytes

unfoldable pub connect : Network → SocketStreamHandler → SocketStreamHandler
connect net h = record h { sock = if net.connects then some [] else none }

unfoldable pub wire : Formatter → LogRecord → Bytes
unfolding format
wire f r = encode (format f r ++ b'\n' ∷ [])

send_line : Sending → Bytes → Bytes → SocketStreamHandler → SocketStreamHandler
send_line sent before line h = record h { sock = some (before ++ line) }
send_line (failed k) before line h = record {
  sock = none;
  earlier = h.earlier ++ (before ++ take k line) ∷ [];
}

send_over : Sending → Bytes → Option Bytes → SocketStreamHandler → SocketStreamHandler
unfolding send_line
send_over sends line none h = h
send_over sends line (some before) h = send_line sends before line h

-- A record without a connection is dropped; so is one that cannot be sent.
unfoldable pub emit : Formatter → Network → LogRecord → SocketStreamHandler → SocketStreamHandler
unfolding connect wire send_over
emit f net r h =
    let ready : SocketStreamHandler = elim h.sock [ none ↦ connect net h | some before ↦ h ] in
    send_over net.sends (wire f r) ready.sock ready

-- The records of a run, each with what the network does.
unfoldable pub emits :
    Formatter → List (Network × LogRecord) → SocketStreamHandler → SocketStreamHandler
unfolding emit
emits f [] h = h
emits f ((net, r) ∷ rs) h = emits f rs (emit f net r h)

-- The loggers of the process, each with the formatter of its two handlers, the console's and the
-- socket's. A logger that has handlers is returned as it is.
unfoldable pub get_logger : Text → Text → Dict Formatter → Dict Formatter
get_logger source log_type loggers =
    let logger_name = source ++ b'_' ∷ log_type in
    elim (lookup logger_name loggers) [
      | some f ↦ loggers
      | none ↦ insert logger_name (record { log_type = log_type; source = source }) loggers
    ]
