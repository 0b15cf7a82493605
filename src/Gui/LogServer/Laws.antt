-- ===== src/Gui/LogServer/Laws.antt =====
-- What the buffers of GUI/backend/coordinator_log_server.py hold, compared with the list of all the
-- entries that were logged.
use smartedge.Base.{
  ◌≡◌, sym, ap, ◌∙◌, Bool, true, false, Option, none, some, List, [], ◌∷◌, ◌++◌, ◌&&◌, arith, inl,
  inr,
}
use smartedge.Base.{
  Text, ◌=?◌, =?_iff, is_empty, or_default, if◌then◌else◌, Option-cases, Bool-cases,
}
use mathlib.Core.List.{append_assoc, append-nil}
use smartedge.Base.Bytes.{Bytes, strip}
use smartedge.Base.Utf8.{decode}
use smartedge.Base.Dict.{lookup, insert, lookup-insert}
use smartedge.Gui.LogStream.{append_bounded}
use smartedge.Gui.LogStream.Laws.{latest, append_bounded-latest}
use smartedge.Gui.LogServer.{
  max_log_buffer_size, LogEntry, LogServer, send_log_to_websocket, store_entry, add_log_entry,
  entry_of_line, handle_tcp_client,
}

-- `logs_by_type_and_source[log_type][source]`
abbrev pub bucket : Text → Text → LogServer → List LogEntry
bucket t source s =
    or_default (lookup source (or_default (lookup t s.logs_by_type_and_source) [])) []

module _ (upper : Text → Text) (parse_log_line : Text → Option LogEntry) where
  -- The entries of a connection: one for each line that is not empty, up to the first that is no
  -- UTF-8.
  unfoldable pub entries : List (Bytes × Bool) → List LogEntry
  entries [] = []
  entries ((bytes, takes) ∷ lines) =
      let rest = entries lines in
      elim (decode bytes) [
        | none ↦ []
        | some line ↦
            if is_empty (strip line)
            then rest
            else entry_of_line upper parse_log_line (strip line) ∷ rest
      ]

module _ (upper : Text → Text) (t source : Text) where
  abbrev is_kind : LogEntry → Bool
  is_kind e = e.type =? t && upper e.source =? source

  -- The entries of the type and the source.
  unfoldable pub of_kind : List LogEntry → List LogEntry
  of_kind [] = []
  of_kind (e ∷ es) = let rest = of_kind es in if is_kind e then e ∷ rest else rest

  -- The flat buffer is the end of all entries, and the buffer of a type and a source is the end of
  -- those that are of that type and source.
  unfoldable pub IsLatest : List LogEntry → LogServer → Type 0
  IsLatest all s =
      (s.log_buffer ≡ latest max_log_buffer_size all)
      × (bucket t source s ≡ latest max_log_buffer_size (of_kind all))

  of_kind-snoc :
      (es : List LogEntry) (e : LogEntry)
      → of_kind (es ++ e ∷ []) ≡ of_kind es ++ (if is_kind e then e ∷ [] else [])
  unfolding of_kind
  of_kind-snoc [] e = ground arith
  of_kind-snoc (d ∷ es) e = ground (arith, of_kind-snoc es e)

  bucket-store :
      (e : LogEntry) (s : LogServer)
      → bucket t source (store_entry upper e s) ≡ (
          if is_kind e
          then append_bounded max_log_buffer_size (bucket t source s) e
          else bucket t source s)
  unfolding store_entry
  bucket-store e s =
      let by_source = or_default (lookup e.type s.logs_by_type_and_source) [] in
      let logs = or_default (lookup (upper e.source) by_source) [] in
      let kept = append_bounded max_log_buffer_size logs e in
      ground (
        arith,
        lookup-insert t e.type (insert (upper e.source) kept by_source) s.logs_by_type_and_source,
        lookup-insert source (upper e.source) kept by_source,
        =?_iff e.type t,
        =?_iff t e.type,
        =?_iff (upper e.source) source,
        =?_iff source (upper e.source),
      )

  bucket-latest :
      (e : LogEntry) (s : LogServer) (all : List LogEntry)
      → bucket t source s ≡ latest max_log_buffer_size (of_kind all)
      → bucket t source (store_entry upper e s)
        ≡ latest max_log_buffer_size (of_kind (all ++ e ∷ []))
  bucket-latest e s all h = bucket-store e s ∙ elim (Bool-cases (is_kind e)) [
    | inl same ↦
        rw (of_kind-snoc all e, same, h) (append_bounded-latest max_log_buffer_size (of_kind all) e)
    | inr other ↦ rw (of_kind-snoc all e, other, append-nil (of_kind all)) h
  ]

  buffers-send :
      (takes : Bool) (e : LogEntry) (s : LogServer)
      → ((send_log_to_websocket upper takes e s).log_buffer ≡ s.log_buffer)
        × (bucket t source (send_log_to_websocket upper takes e s) ≡ bucket t source s)
  unfolding send_log_to_websocket
  buffers-send takes e s = (ground arith, ground arith)

  add_log_entry-IsLatest :
      (takes : Bool) (e : LogEntry) (s : LogServer) (all : List LogEntry)
      → IsLatest all s
      → IsLatest (all ++ e ∷ []) (add_log_entry upper takes e s)
  unfolding IsLatest add_log_entry store_entry
  add_log_entry-IsLatest takes e s all (flat, kinds) =
      let (same_flat, same_bucket) = buffers-send takes e (store_entry upper e s) in
      (
        same_flat
            ∙ (ap (λ xs. append_bounded max_log_buffer_size xs e) flat
                ∙ append_bounded-latest max_log_buffer_size all e),
        same_bucket ∙ bucket-latest e s all kinds,
      )

  module _ (parse_log_line : Text → Option LogEntry) where
    abbrev logged : List (Bytes × Bool) → List LogEntry
    logged lines = entries upper parse_log_line lines

    abbrev rest_of : LogServer → List (Bytes × Bool) → LogServer
    rest_of s lines = handle_tcp_client upper parse_log_line lines s

    unreadable_step :
        (bytes : Bytes) (takes : Bool) (lines : List (Bytes × Bool)) (s : LogServer)
        → decode bytes ≡ none
        → (logged ((bytes, takes) ∷ lines) ≡ []) × (rest_of s ((bytes, takes) ∷ lines) ≡ s)
    unfolding entries handle_tcp_client
    unreadable_step bytes takes lines s h = (ground (arith, h), ground (arith, h))

    empty_step :
        (bytes : Bytes) (takes : Bool) (lines : List (Bytes × Bool)) (s : LogServer) (line : Text)
        → decode bytes ≡ some line
        → is_empty (strip line) ≡ true
        → (logged ((bytes, takes) ∷ lines) ≡ logged lines)
          × (rest_of s ((bytes, takes) ∷ lines) ≡ rest_of s lines)
    unfolding entries handle_tcp_client
    empty_step bytes takes lines s line h e = (ground (arith, h, e), ground (arith, h, e))

    full_step :
        (bytes : Bytes) (takes : Bool) (lines : List (Bytes × Bool)) (s : LogServer) (line : Text)
        → decode bytes ≡ some line
        → is_empty (strip line) ≡ false
        → (logged ((bytes, takes) ∷ lines)
            ≡ entry_of_line upper parse_log_line (strip line) ∷ logged lines)
          × (rest_of s ((bytes, takes) ∷ lines)
              ≡ rest_of
                  (add_log_entry upper takes (entry_of_line upper parse_log_line (strip line)) s)
                  lines)
    unfolding entries handle_tcp_client
    full_step bytes takes lines s line h e = (ground (arith, h, e), ground (arith, h, e))

    -- Where the flat buffer and the buffer of a type and a source hold the last 1000 entries of a
    -- list, the second only those of that type and source, a connection appends to the list one
    -- entry for each line that is not empty, up to the first line that is no UTF-8, and both
    -- buffers go on holding its last 1000, whether or not the browser takes them.
    pub handle_tcp_client-IsLatest :
        (lines : List (Bytes × Bool)) (s : LogServer) (all : List LogEntry)
        → IsLatest all s
        → IsLatest (all ++ logged lines) (handle_tcp_client upper parse_log_line lines s)
    unfolding handle_tcp_client entries
    handle_tcp_client-IsLatest [] s all h = rw (append-nil all) h
    handle_tcp_client-IsLatest ((bytes, takes) ∷ lines) s all h =
        elim (Option-cases (decode bytes)) [
          | inl unreadable ↦
              let (none_logged, ends) = unreadable_step bytes takes lines s unreadable in
              rw (none_logged, ends, append-nil all) h
          | inr (line, readable) ↦ elim (Bool-cases (is_empty (strip line))) [
            | inl empty ↦
                let (same_entries, same_run) = empty_step bytes takes lines s line readable empty in
                rw (same_entries, same_run) (handle_tcp_client-IsLatest lines s all h)
            | inr full ↦
                let e = entry_of_line upper parse_log_line (strip line) in
                let (one_more, run) = full_step bytes takes lines s line readable full in
                rw (one_more, run, sym (append_assoc all (e ∷ []) (logged lines)))
                  (handle_tcp_client-IsLatest lines (add_log_entry upper takes e s) (all ++ e ∷ [])
                    (add_log_entry-IsLatest takes e s all h))
          ]
        ]
