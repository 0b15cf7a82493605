-- ===== src/Gui/LogServer/Tests.antt =====
-- A record of a logger, from its line to the buffers.
use smartedge.Base.{
  ℕ, ◌≤◌, ◌<◌, ◌≡◌, refl, Bool, true, false, none, some, [], ◌∷◌, ◌++◌, ◌||◌, ◌&&◌, map, arith,
}
use smartedge.Base.{codes, ◌==◌, leb, length, All}
use smartedge.Base.Bytes.{has_char, is_space}
use smartedge.Base.Bytes.Ends.{begins_in, ends_in}
use smartedge.Base.Decimal.{is_digit}
use smartedge.Base.Dict.{lookup}
use smartedge.Logging.{Stamp, LogRecord, Formatter, asctime, log_head, format, wire, emits}
use smartedge.Gui.LogParser.{parse_log_line}
use smartedge.Gui.LogParser.Pieces.{IsMessage, IsNamed}
use smartedge.Gui.LogParser.Laws.{parse_log_line-format}
use smartedge.Gui.LogStream.Laws.{latest}
use smartedge.Gui.LogServer.{LogServer, raw_entry}
use smartedge.Gui.LogServer.Laws.{IsLatest, of_kind, entries}
use smartedge.Gui.LogServer.Stream.{read_lines, flagged, parsed_entry, handle_stream}
use smartedge.Gui.LogServer.Logged.{
  reliable, sent_bytes, kept, IsLogged, emits-IsLatest, entries-feed,
}

-- `\w` on ASCII characters.
abbrev word : ℕ → Bool
word c = is_digit c || leb 65 c && leb c 90 || leb 97 c && leb c 122 || c == b'_'

abbrev metric : Formatter
metric = record { log_type = codes "Metric"; source = codes "A P" }

abbrev noon : Stamp
noon = record { year = 2025; month = 7; day = 28; hour = 12; minute = 0; second = 5 }

abbrev done : LogRecord
done = record { stamp = noon; level = codes "INFO"; message = codes "Done 7" }

digits : (c : ℕ) → 48 ≤ c → c ≤ 57 → is_digit c ≡ true
unfolding is_digit
digits c l h = ground arith

closing : word b']' ≡ false
unfolding is_digit
closing = refl

done-IsNamed : IsNamed word is_digit metric done
unfolding IsNamed is_digit codes is_space
done-IsNamed = ground arith

done-IsMessage : IsMessage done.message
unfolding IsMessage begins_in ends_in has_char is_space codes
done-IsMessage = (refl, refl, refl)

parse_log_line-format_example :
    parse_log_line word is_digit (format metric done)
    ≡ some (record {
      type = metric.log_type;
      source = metric.source;
      timestamp = asctime noon;
      level = done.level;
      message = done.message;
    })
parse_log_line-format_example =
    parse_log_line-format word is_digit digits metric done closing done-IsNamed done-IsMessage

done-IsLogged : IsLogged word is_digit (λ t. t) metric done
unfolding IsLogged format log_head asctime codes has_char
done-IsLogged = (done-IsNamed, done-IsMessage, omega arith, refl, omega arith)

abbrev no_logs : LogServer
no_logs = record {
  logs_by_type_and_source = [];
  log_buffer = [];
  active_websocket = none;
  sent = [];
}

nothing-IsLatest : IsLatest (λ t. t) (codes "Metric") (codes "A P") [] no_logs
unfolding IsLatest of_kind latest lookup
nothing-IsLatest = (refl, refl)

emits-IsLatest_example :
    IsLatest
      (λ t. t)
      (codes "Metric")
      (codes "A P")
      ([] ++ map (kept metric) (done ∷ done ∷ []))
      (handle_stream word is_digit
        (λ t. t)
        (λ _. true)
        (sent_bytes
          (emits metric (reliable (done ∷ done ∷ [])) (record { sock = none; earlier = [] })))
        no_logs)
emits-IsLatest_example =
    emits-IsLatest word is_digit (λ t. t) digits closing metric (done ∷ done ∷ []) (λ _. true)
      (codes "Metric") (codes "A P") [] no_logs (done-IsLogged, (done-IsLogged, tt))
      nothing-IsLatest

head-ascii : All (λ c. c < 128) (log_head metric done)
unfolding log_head asctime codes
head-ascii = omega arith

no_feed : has_char b'\n' (log_head metric done) ≡ false
unfolding has_char log_head asctime codes
no_feed = refl

head-short : length (log_head metric done) < 65536
unfolding log_head asctime codes
head-short = omega arith

entries-feed_example :
    entries
      (λ t. t)
      (parsed_entry word is_digit)
      (flagged
        (λ _. true)
        0
        (read_lines (wire metric (record done { message = b'\n' ∷ codes "Up" }))))
    ≡ raw_entry (λ t. t) (parsed_entry word is_digit) (log_head metric done)
      ∷ entries
          (λ t. t)
          (parsed_entry word is_digit)
          (flagged (λ _. true) 1 (read_lines (codes "Up" ++ b'\n' ∷ [])))
unfolding codes
entries-feed_example =
    entries-feed word is_digit (λ t. t) digits closing metric done (codes "Up") (λ _. true) 0
      done-IsNamed head-ascii (omega arith) no_feed head-short
