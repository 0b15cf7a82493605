-- ===== src/Gui/LogServer.antt =====
-- GUI/backend/coordinator_log_server.py: the buffers of log entries, the socket of the browser, and
-- the text protocol on the port for logs. `parse_log_line`, `str.upper` and the sockets are
-- arguments.
pub mod Laws
pub mod Stream
pub mod Logged
mod Tests
use smartedge.Base.{ℕ, Bool, true, Option, none, some, List, [], ◌∷◌, ◌++◌, ◌&&◌, ◌||◌}
use smartedge.Base.{Text, codes, ◌=?◌, ◌==◌, is_empty, or_default, if◌then◌else◌}
use smartedge.Base.Bytes.{Bytes, strip, contains_text}
use smartedge.Base.Utf8.{decode}
use smartedge.Base.Dict.{Dict, lookup, insert}
use smartedge.Gui.LogStream.{append_bounded}

abbrev max_log_buffer_size : ℕ
max_log_buffer_size = 1000

-- The keys of an entry that the server reads.
pub record LogEntry : Type 0 where
  pub type : Text
  pub source : Text
  pub message : Text

-- What a browser asked for; `none` is `None`, and an empty text counts as none too.
pub record Filters : Type 0 where
  pub type : Option Text
  pub source : Option Text

-- A message for the browser: of the log, or an entry as it is.
pub data Payload : Type 0 where
  log_payload : Text → Text → Text → Payload
  entry_payload : LogEntry → Payload

pub record LogServer : Type 0 where
  pub logs_by_type_and_source : Dict (Dict (List LogEntry))
  pub log_buffer : List LogEntry
  pub active_websocket : Option (ℕ × Filters)
  pub sent : List (ℕ × Payload)

abbrev passes : Option Text → Text → Bool
passes none value = true
passes (some wanted) value = is_empty wanted || value =? wanted

unfoldable pub matches_filter : LogEntry → Filters → Bool
matches_filter entry filters = passes filters.type entry.type && passes filters.source entry.source

unfoldable pub infer_log_source : Text → Text
unfolding contains_text
infer_log_source line =
    if contains_text (codes "Access Point") line || contains_text (codes "AP") line
    then codes "Access Point"
    else if contains_text (codes "Coordinator") line
    then codes "Coordinator"
    else codes "UNKNOWN"

-- A browser connects: it becomes the one that entries are sent to, whoever was before, and is sent
-- the buffer, as long as it takes them.
entries_to : (ℕ → Bool) → ℕ → Filters → List LogEntry → List (ℕ × Payload)
unfolding matches_filter
entries_to takes ws filters [] = []
entries_to takes ws filters (e ∷ es) =
    let rest = entries_to takes ws filters es in
    if matches_filter e filters
    then (if takes ws then (ws, entry_payload e) ∷ rest else [])
    else rest

unfoldable pub connect_log_stream : (ℕ → Bool) → ℕ → LogServer → LogServer
unfolding entries_to
connect_log_stream takes ws s =
    let filters : Filters = record { type = none; source = none } in
    record s {
      active_websocket = some (ws, filters);
      sent = s.sent ++ entries_to takes ws filters s.log_buffer;
    }

-- A browser that is still the active one sets its filters.
unfoldable pub update_filters : ℕ → Filters → LogServer → LogServer
update_filters ws filters s = elim s.active_websocket [
  | none ↦ s
  | some (active, old) ↦
      if active == ws then record s { active_websocket = some (active, filters) } else s
]

unfoldable pub disconnect_log_stream : ℕ → LogServer → LogServer
disconnect_log_stream ws s = elim s.active_websocket [
  | none ↦ s
  | some (active, filters) ↦ if active == ws then record s { active_websocket = none } else s
]

-- The client is asked for a `send_text`, which only its socket has: the AttributeError is caught, and
-- the browser is forgotten.
unfoldable pub send_json_to_websocket : LogServer → LogServer
send_json_to_websocket s = record s { active_websocket = none }

module _ (upper : Text → Text) where
  normalized_source : Text → Text
  normalized_source source =
      if upper source =? codes "ACCESS POINT" then codes "AP" else upper source

  -- `takes` is whether the socket can be sent to; a failure forgets the browser. The filters are
  -- not looked at.
  unfoldable pub send_log_to_websocket : Bool → LogEntry → LogServer → LogServer
  unfolding normalized_source
  send_log_to_websocket takes e s = elim s.active_websocket [
    | none ↦ s
    | some (ws, filters) ↦
        if e.type =? codes "Console" || e.type =? codes "Metric"
        then (if takes
            then record s {
              sent = s.sent ++ (ws, log_payload e.type (normalized_source e.source) e.message) ∷ [];
            }
            else record s { active_websocket = none })
        else s
  ]

  -- What `add_log_entry` does to the buffers.
  unfoldable pub store_entry : LogEntry → LogServer → LogServer
  unfolding append_bounded
  store_entry e s =
      let by_source = or_default (lookup e.type s.logs_by_type_and_source) [] in
      let logs = or_default (lookup (upper e.source) by_source) [] in
      record s {
        logs_by_type_and_source =
            insert e.type
              (insert (upper e.source) (append_bounded max_log_buffer_size logs e) by_source)
              s.logs_by_type_and_source;
        log_buffer = append_bounded max_log_buffer_size s.log_buffer e;
      }

  unfoldable pub add_log_entry : Bool → LogEntry → LogServer → LogServer
  unfolding store_entry send_log_to_websocket
  add_log_entry takes e s = send_log_to_websocket takes e (store_entry e s)

  module _ (parse_log_line : Text → Option LogEntry) where
    abbrev raw_entry : Text → LogEntry
    raw_entry line = record {
      type = codes "Console";
      source =
          if contains_text (codes "Access Point") line
          then codes "Access Point"
          else codes "Coordinator";
      message = line;
    }

    -- A line that is not empty.
    unfoldable pub entry_of_line : Text → LogEntry
    entry_of_line line = or_default (parse_log_line line) (raw_entry line)

    -- The lines of a connection, each with whether the browser can be sent to. A line that is no
    -- UTF-8 ends the connection.
    unfoldable pub handle_tcp_client : List (Bytes × Bool) → LogServer → LogServer
    unfolding entry_of_line add_log_entry
    handle_tcp_client [] s = s
    handle_tcp_client ((bytes, takes) ∷ lines) s = elim (decode bytes) [
      | none ↦ s
      | some text ↦
          let line = strip text in
          let next = add_log_entry takes (entry_of_line line) s in
          handle_tcp_client lines (if is_empty line then s else next)
    ]
