-- ===== src/Gui/LogParser/Laws.antt =====
-- The lines that lib/logger_utils.py writes are read back by GUI/backend/log_parser.py.
use smartedge.Base.{
  ℕ, ◌/◌, ◌≤◌, ◌≡◌, refl, sym, ap, ◌∙◌, Bool, true, false, Option, none, some, [], ◌∷◌, ◌++◌, arith,
}
use smartedge.Base.{Text, All, is_empty}
use mathlib.Core.List.{append_assoc, append-nil}
use smartedge.Base.Bytes.{is_space, strip}
use smartedge.Base.Bytes.Ends.{
  ends_in, begins_in, no_space, begins_in-append, ends_in-append, strip-ends, strip-append_spaces,
}
use smartedge.Logging.{asctime, LogRecord, Formatter, log_head, format}
use smartedge.Gui.LogParser.{
  LogLine, ◌>>=◌, span, many, many1, exactly, optional_quote, message_of, from_level, from_stamp,
  from_source, log_line, parse_log_line,
}
use smartedge.Gui.LogParser.Pieces.{
  IsMessage, is_source, IsNamed, message_of-IsMessage, ends_in-plain, digit-no_space, bracketed-All,
  timestamp-asctime,
}

module _ (is_word is_decimal : ℕ → Bool) where
  module _ (digits : (c : ℕ) → 48 ≤ c → c ≤ 57 → is_decimal c ≡ true) where
    -- The front of a line, with what comes behind it.
    abbrev headed : Formatter → LogRecord → Text → Text
    headed f r rest =
        b'['
        ∷ (f.log_type
            ++ b']'
              ∷ b' '
              ∷ b'['
              ∷ (f.source
                  ++ b']'
                    ∷ b' '
                    ∷ (asctime r.stamp ++ b' ' ∷ b'[' ∷ (r.level ++ b']' ∷ b':' ∷ rest))))

    log_head-append :
        (f : Formatter) (r : LogRecord) (rest : Text) → log_head f r ++ rest ≡ headed f r rest
    unfolding log_head
    log_head-append f r rest =
        rw
          (
            append_assoc f.log_type _ rest,
            append_assoc f.source _ rest,
            append_assoc (asctime r.stamp) _ rest,
            append_assoc r.level _ rest,
          )
          refl

    abbrev line_of : Formatter → LogRecord → Option Text → Option (LogLine × Text)
    line_of f r none = none
    line_of f r (some m) = some (
      record {
        type = f.log_type;
        source = f.source;
        timestamp = asctime r.stamp;
        level = r.level;
        message = m;
      },
      [],
    )

    module _ (f : Formatter) (r : LogRecord) (rest : Text) (closing : is_word b']' ≡ false) where
      abbrev level_part : Text
      level_part = b'[' ∷ (r.level ++ b']' ∷ b':' ∷ rest)

      abbrev stamp_part : Text
      stamp_part = asctime r.stamp ++ b' ' ∷ level_part

      abbrev source_part : Text
      source_part = b'[' ∷ (f.source ++ b']' ∷ b' ' ∷ stamp_part)

      level_read :
          is_empty r.level ≡ false
          → All (λ c. is_word c ≡ true) r.level
          → from_level is_word is_decimal f.log_type f.source (asctime r.stamp) level_part
            ≡ line_of f r (message_of rest)
      unfolding from_level exactly ◌>>=◌
      level_read full word =
          rw (bracketed-All is_word is_decimal is_word r.level (b':' ∷ rest) full word closing)
            (ground arith)

      stamp_read :
          from_stamp is_word is_decimal f.log_type f.source stamp_part
          ≡ from_level is_word is_decimal f.log_type f.source (asctime r.stamp) level_part
      unfolding from_stamp many1 span is_space ◌>>=◌
      stamp_read = rw (timestamp-asctime is_word is_decimal digits r.stamp (b' ' ∷ level_part)) refl

      gap_read : many1 is_space (b' ' ∷ stamp_part) ≡ some (b' ' ∷ [], stamp_part)
      unfolding asctime many1 span is_space
      gap_read = ground (arith, digit-no_space (r.stamp.year / 1000))

      no_bracket : is_source is_word is_decimal b']' ≡ false
      unfolding is_space
      no_bracket = rw closing refl

      source_read :
          is_empty f.source ≡ false
          → All (λ c. is_source is_word is_decimal c ≡ true) f.source
          → from_source is_word is_decimal f.log_type source_part
            ≡ from_stamp is_word is_decimal f.log_type f.source stamp_part
      unfolding from_source ◌>>=◌
      source_read full word =
          rw
            (bracketed-All is_word is_decimal (is_source is_word is_decimal) f.source
              (b' ' ∷ stamp_part) full word no_bracket)
            (rw gap_read refl)

      log_line-headed :
          IsNamed is_word is_decimal f r
          → log_line is_word is_decimal (headed f r rest) ≡ line_of f r (message_of rest)
      unfolding log_line many many1 span optional_quote is_space IsNamed ◌>>=◌
      log_line-headed ((t_full, t_word), (s_full, s_word), (l_full, l_word)) =
          rw
            (bracketed-All is_word is_decimal is_word f.log_type (b' ' ∷ source_part) t_full t_word
              closing)
            (source_read s_full s_word ∙ stamp_read ∙ level_read l_full l_word)

    log_head-begins_in : (f : Formatter) (r : LogRecord) → begins_in no_space (log_head f r) ≡ true
    unfolding log_head begins_in is_space
    log_head-begins_in f r = refl

    ends_in-headed : (f : Formatter) (r : LogRecord) → ends_in no_space (headed f r []) ≡ true
    ends_in-headed f r = ends_in-append no_space (b'[' ∷ f.log_type) _ (
        ends_in-append no_space (b']' ∷ b' ' ∷ b'[' ∷ f.source) _ (
          ends_in-append no_space (b']' ∷ b' ' ∷ asctime r.stamp) _ (
            ends_in-append no_space (b' ' ∷ b'[' ∷ r.level) (b']' ∷ b':' ∷ [])
              (unfold ends_in is_space in refl))))

    log_head-ends_in : (f : Formatter) (r : LogRecord) → ends_in no_space (log_head f r) ≡ true
    log_head-ends_in f r =
        ap (ends_in no_space) (sym (append-nil (log_head f r)) ∙ log_head-append f r [])
        ∙ ends_in-headed f r

    space : is_space b' ' ≡ true
    unfolding is_space
    space = refl

    abbrev first_part : Option (LogLine × Text) → Option LogLine
    first_part none = none
    first_part (some (l, _)) = some l

    parsed :
        (line stripped : Text) (r : Option (LogLine × Text))
        → strip line ≡ stripped
        → log_line is_word is_decimal stripped ≡ r
        → parse_log_line is_word is_decimal line ≡ first_part r
    unfolding parse_log_line
    parsed line stripped r s l = ground (arith, s, l)

    line_read :
        (f : Formatter) (r : LogRecord) (rest : Text)
        → is_word b']' ≡ false
        → IsNamed is_word is_decimal f r
        → log_line is_word is_decimal (log_head f r ++ rest) ≡ line_of f r (message_of rest)
    line_read f r rest closing named =
        ap (log_line is_word is_decimal) (log_head-append f r rest)
        ∙ log_line-headed f r rest closing named

    format-begins_in : (f : Formatter) (r : LogRecord) → begins_in no_space (format f r) ≡ true
    unfolding format
    format-begins_in f r =
        begins_in-append no_space (log_head f r) (b' ' ∷ r.message) (log_head-begins_in f r)

    format-ends_in :
        (f : Formatter) (r : LogRecord) → IsMessage r.message → ends_in no_space (format f r) ≡ true
    unfolding format IsMessage
    format-ends_in f r (_, e, _) =
        ends_in-append no_space (log_head f r) (b' ' ∷ r.message)
          (ends_in-append no_space (b' ' ∷ []) r.message (ends_in-plain r.message e))

    -- A line that a logger formats is read back as its type, source, time, level and message,
    -- where the names are of the characters that the pattern wants and the message has no line
    -- feed, no white space at its ends and no quote at its end.
    pub parse_log_line-format :
        (f : Formatter) (r : LogRecord)
        → is_word b']' ≡ false
        → IsNamed is_word is_decimal f r
        → IsMessage r.message
        → parse_log_line is_word is_decimal (format f r)
          ≡ some (record {
            type = f.log_type;
            source = f.source;
            timestamp = asctime r.stamp;
            level = r.level;
            message = r.message;
          })
    unfolding format
    parse_log_line-format f r closing named message =
        parsed (format f r) (format f r) (line_of f r (some r.message))
          (strip-ends (format f r) (format-begins_in f r) (format-ends_in f r message))
          (line_read f r (b' ' ∷ r.message) closing named
            ∙ ap (line_of f r) (message_of-IsMessage r.message message))

    -- The front of a line alone is no line.
    pub parse_log_line-log_head :
        (f : Formatter) (r : LogRecord)
        → is_word b']' ≡ false
        → IsNamed is_word is_decimal f r
        → parse_log_line is_word is_decimal (log_head f r) ≡ none
    parse_log_line-log_head f r closing named =
        parsed (log_head f r) (log_head f r) none
          (strip-ends (log_head f r) (log_head-begins_in f r) (log_head-ends_in f r))
          (ap (log_line is_word is_decimal) (sym (append-nil (log_head f r)))
            ∙ line_read f r [] closing named
            ∙ unfold message_of in refl)

    pub strip-format :
        (f : Formatter) (r : LogRecord)
        → IsMessage r.message
        → strip (format f r ++ b'\n' ∷ []) ≡ format f r
    strip-format f r message =
        strip-append_spaces (format f r) (b'\n' ∷ []) (format-begins_in f r)
          (format-ends_in f r message) (unfold is_space in refl, tt)

    pub strip-log_head :
        (f : Formatter) (r : LogRecord) → strip (log_head f r ++ b' ' ∷ b'\n' ∷ []) ≡ log_head f r
    strip-log_head f r =
        strip-append_spaces (log_head f r) (b' ' ∷ b'\n' ∷ []) (log_head-begins_in f r)
          (log_head-ends_in f r) (space, (unfold is_space in refl, tt))
