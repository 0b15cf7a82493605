-- ===== src/Gui/LogStream.antt =====
-- GUI/backend/heartbeat_api.py: the lines of the log of the heartbeat server, their history by
-- node, and the sockets that follow a node. A socket is a number; Unicode's decimal digits, and
-- whether a socket takes a line, are arguments.
pub mod Laws
use smartedge.Base.{
  ℕ, zero, suc, ◌-◌, Bool, true, false, not, Option, none, some, List, [], ◌∷◌, ◌++◌,
}
use smartedge.Base.{◌&&◌, ◌||◌, ◌==◌, Text, codes, ◌=?◌, elem, is_empty, length, take, drop}
use smartedge.Base.{leb, or_default, if◌then◌else◌}
use smartedge.Base.Bytes.{strip}
use smartedge.Base.Dict.{Dict, lookup, insert, erase}

abbrev pub history_limit : ℕ
history_limit = 150

-- `_ws_by_uuid` and `_history_by_uuid`, and the lines that were sent.
pub record Streams : Type 0 where
  pub ws_by_uuid : Dict (List ℕ)
  pub history_by_uuid : Dict (List Text)
  pub sent : List (ℕ × Text)

-- `deque.append` with a bound.
unfoldable pub append_bounded {ℓ} : {A : Type ℓ} → ℕ → List A → A → List A
append_bounded limit xs x = let ys = xs ++ x ∷ [] in drop (length ys - limit) ys

module _ (is_decimal : ℕ → Bool) where
  all_decimal : Text → Bool
  all_decimal [] = true
  all_decimal (c ∷ cs) = is_decimal c && all_decimal cs

  -- `SN\d{6}` without regard to case, at the beginning of the text. U+017F is an S in lower case.
  starts_uuid : Text → Bool
  unfolding all_decimal
  starts_uuid (s ∷ n ∷ digits) =
      (s == 83 || s == 115 || s == 0x17f)
      && (n == 78 || n == 110)
      && length (take 6 digits) == 6
      && all_decimal (take 6 digits)
  starts_uuid _ = false

  -- `_UUID_RE.search(msg)`, with its group in upper case. The optional words in front of the group
  -- hold no other match.
  unfoldable pub find_uuid : Text → Option Text
  unfolding starts_uuid
  find_uuid [] = none
  find_uuid (c ∷ cs) =
      let rest = find_uuid cs in
      if starts_uuid (c ∷ cs) then some (codes "SN" ++ take 6 (drop 1 cs)) else rest

-- The sockets that take the line, and what they are sent.
unfoldable pub takers : (ℕ → Bool) → List ℕ → List ℕ
takers sends [] = []
takers sends (ws ∷ conns) = let rest = takers sends conns in if sends ws then ws ∷ rest else rest

unfoldable pub deliveries : List ℕ → Text → List (ℕ × Text)
deliveries [] line = []
deliveries (ws ∷ conns) line = (ws, line) ∷ deliveries conns line

-- A socket that does not take the line is discarded from the set.
unfoldable pub dispatch_to_subscribers : (ℕ → Bool) → Text → Text → Streams → Streams
unfolding takers deliveries
dispatch_to_subscribers sends node_uuid line s = elim (lookup node_uuid s.ws_by_uuid) [
  | none ↦ s
  | some conns ↦ record s {
    ws_by_uuid = insert node_uuid (takers sends conns) s.ws_by_uuid;
    sent = s.sent ++ deliveries (takers sends conns) line;
  }
]

unfoldable pub remember : Text → Text → Streams → Streams
unfolding append_bounded
remember node_uuid msg s = record s {
  history_by_uuid =
      insert node_uuid
        (append_bounded history_limit (or_default (lookup node_uuid s.history_by_uuid) []) msg)
        s.history_by_uuid;
}

-- A line that was read, and the sockets that take it.
pub record Line : Type 0 where
  pub text : Text
  pub sends : ℕ → Bool

module _ (is_decimal : ℕ → Bool) where
  -- One round of `_tail_heartbeat_log`.
  unfoldable pub tail_line : Line → Streams → Streams
  unfolding find_uuid remember dispatch_to_subscribers
  tail_line l s =
      let msg = strip l.text in
      let found : Streams = elim (find_uuid is_decimal msg) [
        | none ↦ s
        | some node_uuid ↦ dispatch_to_subscribers l.sends node_uuid msg (remember node_uuid msg s)
      ] in
      if is_empty msg then s else found

  unfoldable pub tail_heartbeat_log : List Line → Streams → Streams
  unfolding tail_line
  tail_heartbeat_log [] s = s
  tail_heartbeat_log (l ∷ ls) s = tail_heartbeat_log ls (tail_line l s)

-- `set.add`, and `set.discard` with the end of an empty set.
unfoldable pub subscribe : Text → ℕ → Streams → Streams
subscribe uuid ws s =
    let conns = or_default (lookup uuid s.ws_by_uuid) [] in
    record s {
      ws_by_uuid = insert uuid (if elem ws conns then conns else conns ++ ws ∷ []) s.ws_by_uuid;
    }

unfoldable pub unsubscribe : Text → ℕ → Streams → Streams
unfolding takers
unsubscribe uuid ws s =
    let rest = takers (λ other. not (other == ws)) (or_default (lookup uuid s.ws_by_uuid) []) in
    record s {
      ws_by_uuid = if is_empty rest then erase uuid s.ws_by_uuid else insert uuid rest s.ws_by_uuid;
    }

-- The replay: the lines sent before the socket fails, after `room` of them, and whether it failed.
unfoldable pub replay : ℕ → ℕ → List Text → List (ℕ × Text)
unfolding deliveries
replay ws room [] = []
replay ws zero (line ∷ lines) = []
replay ws (suc room) (line ∷ lines) = (ws, line) ∷ replay ws room lines

-- `websocket_endpoint` up to its wait; `uuid` is in upper case. The socket takes `room` lines. A
-- key that is read in a `defaultdict` is there afterwards.
unfoldable pub websocket_endpoint : Text → ℕ → ℕ → Streams → Streams
unfolding subscribe unsubscribe replay
websocket_endpoint uuid ws room s =
    let history = or_default (lookup uuid s.history_by_uuid) [] in
    let t =
      subscribe uuid ws (record s { history_by_uuid = insert uuid history s.history_by_uuid }) in
    let u = record t { sent = t.sent ++ replay ws room history } in
    if leb (length history) room then u else unsubscribe uuid ws u
