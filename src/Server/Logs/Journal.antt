-- ===== src/Server/Logs/Journal.antt =====
-- server/journal.go, and the stand-ins journaldisabled.go and journalnonlinux.go.
-- The journal is the list of what the calls of the sdjournal library answer, from the newest entry
-- back; after the last one Previous reports that nothing is left. Formatting a time is a parameter.
pub mod Entries
use xray_web_maneger.Common.{
  ℕ, zero, suc, ◌+◌, ◌/◌, ◌%◌, ◌*◌, Text, codes, Bool, true, false, not, Option, none, some, List,
  [], ◌∷◌, ◌++◌, reverse, if◌then◌else◌,
}
use xray_web_maneger.Common.Int.{ℤ, is_positive}
use xray_web_maneger.Common.Strings.{trim_prefix}
use xray_web_maneger.Server.Logs.{
  ReadResult, lines_read, read_failed, open_failed, cancelled, LogError, journal_failed,
  add_match_failed, seek_failed, previous_failed, journal_disabled, journal_unsupported, matches,
  trim_lines_to_bytes,
}

-- GetData("MESSAGE") and GetRealtimeUsec of one entry; `none` is an error.
pub record Entry : Type 0 where
  pub message : Option Text
  pub usec : Option ℕ

-- One call of Previous.
pub data Previous : Type 0 where
  failed : Previous
  entry : Entry → Previous

pub record Journal : Type 0 where
  pub opens : Bool
  pub match_added : Bool
  pub seeks : Bool
  -- Whether the context was done before the call, and the call.
  pub calls : List (Bool × Previous)

module _ (to_lower : Text → Text) (format_time : ℕ → ℕ → Text) where
  -- The line of an entry that is kept: its time, to the nanosecond, and its message.
  line_of : Text → Option ℕ → Text
  line_of msg none = msg
  line_of msg (some usec) =
      format_time (usec / 1_000_000) (usec % 1_000_000 * 1000) ++ codes " " ++ msg

  abbrev stripped : Text → Text
  stripped msg = trim_prefix msg (codes "MESSAGE=")

  -- What an entry adds to the lines; `none` where the loop goes on without a line.
  pub line_from : Text → Entry → Option Text
  line_from search e = elim e.message [
    | none ↦ none
    | some msg ↦
        if matches to_lower search (stripped msg)
        then some (line_of (stripped msg) e.usec)
        else none
  ]

  -- The loop, until `room` more lines are found; the lines come out newest first.
  collect : Text → ℕ → List (Bool × Previous) → ReadResult
  collect search zero calls = lines_read []
  collect search (suc room) [] = lines_read []
  collect search (suc room) ((true, call) ∷ calls) = read_failed cancelled
  collect search (suc room) ((false, failed) ∷ calls) = read_failed previous_failed
  collect search (suc room) ((false, entry e) ∷ calls) = elim (line_from search e) [
    | none ↦ collect search (suc room) calls
    | some line ↦ elim (collect search room calls) [
      | lines_read lines ↦ lines_read (line ∷ lines)
      | read_failed err ↦ read_failed err
    ]
  ]

  -- readJournalLog on Linux.
  pub read_journal_log : Journal → ℕ → Text → ℤ → ReadResult
  read_journal_log j max_lines search max_bytes =
      if not j.opens
      then read_failed journal_failed
      else if not j.match_added
      then read_failed add_match_failed
      else if not j.seeks
      then read_failed seek_failed
      else elim (collect search max_lines j.calls) [
        | read_failed err ↦ read_failed err
        | lines_read lines ↦ lines_read (
            if is_positive max_bytes
            then trim_lines_to_bytes (reverse lines) max_bytes
            else reverse lines)
      ]

-- Built without the journal, and on other systems.
pub read_journal_log_disabled : ReadResult
read_journal_log_disabled = read_failed journal_disabled

pub read_journal_log_unsupported : ReadResult
read_journal_log_unsupported = read_failed journal_unsupported
