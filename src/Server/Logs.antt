-- ===== src/Server/Logs.antt =====
-- server/handlerlog.go and the two variants of readJournalLog: the log endpoint's reading of files
-- and of the systemd journal.
-- A string is its bytes. What the operating system, the journal and the clock answer are arguments.
-- strings.ToLower is a parameter: every statement holds for any function in its place.
pub mod Trim
pub mod RingBuffer
pub mod Reading
pub mod Search
pub mod Journal
pub mod Handler
mod Tests
use xray_web_maneger.Common.{
  ℕ, zero, suc, ◌+◌, ◌-◌, ◌*◌, ◌%◌, String, Text, text_eq, is_empty, Bool, true, false, not, ◌&&◌,
  ◌||◌, ◌==◌, Option, none, some, List, [], ◌∷◌, ◌++◌, reverse, ltb, leb, length, take, drop, set,
  if◌then◌else◌, codes,
}
use xray_web_maneger.Common.Int.{ℤ, pos, negsuc, is_positive, pos_part}
use xray_web_maneger.Common.Strings.{contains, trim_space, trim_prefix, atoi}

abbrev pub log_default_lines : ℕ
log_default_lines = 500

abbrev pub log_max_lines : ℕ
log_max_lines = 2000

abbrev pub log_max_file_size : ℕ
log_max_file_size = 10_485_760

abbrev pub max_search_length : ℕ
max_search_length = 256

-- The UTF-8 bytes of the marker, "[日志输出过大，已截断]".
abbrev pub truncation_marker : Text
truncation_marker =
    b'[' ∷ 0xE6 ∷ 0x97 ∷ 0xA5 ∷ 0xE5 ∷ 0xBF ∷ 0x97 ∷ 0xE8 ∷ 0xBE ∷ 0x93 ∷ 0xE5 ∷ 0x87 ∷ 0xBA ∷ 0xE8
    ∷ 0xBF ∷ 0x87 ∷ 0xE5 ∷ 0xA4 ∷ 0xA7 ∷ 0xEF ∷ 0xBC ∷ 0x8C ∷ 0xE5 ∷ 0xB7 ∷ 0xB2 ∷ 0xE6 ∷ 0x88
    ∷ 0xAA ∷ 0xE6 ∷ 0x96 ∷ 0xAD ∷ b']' ∷ []

-- The backwards loop of trimLinesToBytes over the lines from the last one on: how many fit.
kept : ℕ → ℕ → List Text → ℕ
kept max_bytes used [] = 0
kept max_bytes used (line ∷ older) =
    let more = suc (kept max_bytes (used + length line) older) in
    if ltb max_bytes (used + length line) then 0 else more

-- The rest of trimLinesToBytes, once the first line that is kept is known.
cut : List Text → ℕ → List Text
cut lines start =
    if ltb 0 start && ltb start (length lines) then truncation_marker ∷ drop start lines else lines

pub trim_lines_to_bytes : List Text → ℤ → List Text
trim_lines_to_bytes lines max_bytes =
    if not (is_positive max_bytes) || length lines == 0
    then lines
    else cut lines (length lines - kept (pos_part max_bytes) 0 (reverse lines))

pub data LogError : Type 0 where
  open_failed stat_failed cancelled scan_failed : LogError
  file_too_large : ℕ → LogError
  journal_failed add_match_failed seek_failed previous_failed : LogError
  journal_disabled journal_unsupported : LogError

pub data ReadResult : Type 0 where
  lines_read : List Text → ReadResult
  read_failed : LogError → ReadResult

-- The ring buffer of readLogFile.
pub record Ring : Type 0 where
  pub slots : List Text
  pub pos : ℕ
  pub count : ℕ

-- One line that is kept.
pub write_line : ℕ → Ring → Text → Ring
write_line max_lines r line = record {
  slots = set r.slots r.pos line;
  pos = (r.pos + 1) % max_lines;
  count = r.count + 1;
}

-- The lines in the order in which they were read.
pub unroll : ℕ → Ring → List Text
unroll max_lines r =
    if ltb r.count max_lines then take r.count r.slots else drop r.pos r.slots ++ take r.pos r.slots

-- The file system's answers: os.Open, f.Stat, then for each line whether the context was done
-- before it was looked at, and whether the scan ended by an error.
pub record LogFile : Type 0 where
  pub opens : Bool
  pub stat : Option ℕ
  pub scanned : List (Bool × Text)
  pub scan_ok : Bool

module _ (to_lower : Text → Text) where
  pub matches : Text → Text → Bool
  matches search line = is_empty search || contains (to_lower line) (to_lower search)

  -- The scanner loop; `none` means that the context ended it.
  pub scan : ℕ → Text → Ring → List (Bool × Text) → Option Ring
  scan max_lines search r [] = some r
  scan max_lines search r ((done, line) ∷ rest) =
      let more =
        scan max_lines search (if matches search line then write_line max_lines r line else r)
          rest in
      if done then none else more

  -- readLogFile; `pooled` is what the slice from the pool holds, or the zero value of a new one.
  pub read_log_file : LogFile → List Text → ℕ → Text → ℤ → ReadResult
  read_log_file file pooled max_lines search max_bytes =
      if not file.opens then read_failed open_failed else elim file.stat [
        | none ↦ read_failed stat_failed
        | some size ↦
            if ltb log_max_file_size size
            then read_failed (file_too_large size)
            else elim (scan max_lines search (record { slots = pooled; pos = 0; count = 0 })
                file.scanned) [
                  | none ↦ read_failed cancelled
                  | some r ↦
                      if not file.scan_ok
                      then read_failed scan_failed
                      else lines_read (
                          if is_positive max_bytes
                          then trim_lines_to_bytes (unroll max_lines r) max_bytes
                          else unroll max_lines r)
                ]
      ]
