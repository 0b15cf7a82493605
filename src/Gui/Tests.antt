-- ===== src/Gui/Tests.antt =====
-- A broadcast, the history of a node, and requests to start the heartbeat server.
use smartedge.Base.{◌≡◌, ◌≤◌, ℕ, refl, true, none, some, List, [], ◌∷◌, ◌++◌, map, arith, codes}
use smartedge.Base.{List, Bool, true}
use smartedge.Base.Bytes.{Bytes}
use smartedge.Base.Decimal.{pos, dec, is_digit}
use smartedge.Base.Dict.{lookup}
use smartedge.Gui.LogStream.{history_limit, Streams, Line, tail_heartbeat_log, websocket_endpoint}
use smartedge.Gui.LogStream.Laws.{latest, about, endpoint-latest}
use smartedge.Gui.LogServer.{LogServer, handle_tcp_client}
use smartedge.Gui.LogServer.Laws.{IsLatest, of_kind, entries, handle_tcp_client-IsLatest}
use smartedge.Gui.HeartbeatControl.{
  number, System, Request, start_request, requests, start_heartbeat_server, limit_of,
  heartbeat_timeout,
}
use smartedge.Gui.HeartbeatControl.Laws.{requests-timeout}

-- A line of the log about the node SN010003.
abbrev line : Line
line = record { text = codes "[HB] OK client=SN010003 i=1"; sends = λ _. true }

abbrev no_streams : Streams
no_streams = record { ws_by_uuid = []; history_by_uuid = []; sent = [] }

absent : lookup (codes "SN010003") no_streams.history_by_uuid ≡ none
unfolding lookup
absent = refl

endpoint-latest_example :
    (websocket_endpoint
      (codes "SN010003")
      4
      200
      (tail_heartbeat_log is_digit (line ∷ line ∷ []) no_streams)).sent
    ≡ (tail_heartbeat_log is_digit (line ∷ line ∷ []) no_streams).sent
      ++ map
          (λ l. (4, l))
          (latest history_limit (about is_digit (codes "SN010003") (line ∷ line ∷ [])))
endpoint-latest_example =
    endpoint-latest is_digit (codes "SN010003") (line ∷ line ∷ []) 4 200 no_streams absent
      (omega arith)

abbrev idle : System
idle = record { polls_none = true; pgrep = some 1; popen = true; killed = true; pkill = true }

abbrev seven : List Request
seven = start_request idle (number (pos 7)) ∷ start_request idle (number (pos 70)) ∷ []

seven_tracked : requests seven none ≡ some (dec 7)
unfolding requests start_heartbeat_server limit_of
seven_tracked = refl

requests-timeout_example :
    (n : ℕ) × (heartbeat_timeout (some (dec 7)) none ≡ some (pos n)) × (1 ≤ n) × (n ≤ 10)
requests-timeout_example = requests-timeout seven (dec 7) none seven_tracked

abbrev no_logs : LogServer
no_logs = record {
  logs_by_type_and_source = [];
  log_buffer = [];
  active_websocket = none;
  sent = [];
}

-- An empty line, and one that has no structure.
abbrev two_lines : List (Bytes × Bool)
two_lines = (10 ∷ [], true) ∷ (codes "Onboarding", true) ∷ []

no_logs-IsLatest : IsLatest (λ t. t) (codes "Console") (codes "Coordinator") [] no_logs
unfolding IsLatest of_kind latest lookup
no_logs-IsLatest = (refl, refl)

handle_tcp_client-IsLatest_example :
    IsLatest
      (λ t. t)
      (codes "Console")
      (codes "Coordinator")
      ([] ++ entries (λ t. t) (λ _. none) two_lines)
      (handle_tcp_client (λ t. t) (λ _. none) two_lines no_logs)
handle_tcp_client-IsLatest_example =
    handle_tcp_client-IsLatest (λ t. t) (codes "Console") (codes "Coordinator") (λ _. none)
      two_lines no_logs [] no_logs-IsLatest
