-- ===== src/Server/Logs/Tests.antt =====
-- Runs of the log readers, and their theorems at an input.
use xray_web_maneger.Common.{
  ℕ, ◌≤◌, ◌<◌, ◌≡◌, ◌⊎◌, refl, Text, codes, some, none, List, [], ◌∷◌, false, true, length, take,
  reverse, if◌then◌else◌, arith,
}
use xray_web_maneger.Common.Int.{pos, negsuc, is_positive}
use xray_web_maneger.Server.Logs.{LogFile, read_log_file, lines_read, trim_lines_to_bytes}
use xray_web_maneger.Server.Logs.Trim.{Trimmed, trim_lines_to_bytes-Trimmed}
use xray_web_maneger.Server.Logs.RingBuffer.{last_n, matching}
use xray_web_maneger.Server.Logs.Reading.{read_log_file-last_n}
use xray_web_maneger.Server.Logs.Search.{truncate_search, valid_string}
use xray_web_maneger.Server.Logs.Search.Laws.{Begins, truncate_search_lem}
use xray_web_maneger.Server.Logs.Journal.{Entry, read_journal_log}
use xray_web_maneger.Server.Logs.Journal.Entries.{calls_of, lines_of, read_journal_log-take}

trim_example :
    Trimmed 5
      (codes "one" ∷ codes "two" ∷ codes "x" ∷ [])
      (trim_lines_to_bytes (codes "one" ∷ codes "two" ∷ codes "x" ∷ []) (pos 5))
trim_example =
    trim_lines_to_bytes-Trimmed (codes "one" ∷ codes "two" ∷ codes "x" ∷ []) 5 (omega arith)

abbrev same_case : Text → Text
same_case s = s

abbrev small_file : LogFile
small_file = record {
  opens = true;
  stat = some 12;
  scanned =
      (false, codes "ab") ∷ (false, codes "c") ∷ (false, codes "ad") ∷ (false, codes "ae") ∷ [];
  scan_ok = true;
}

read_log_file_example :
    let found = last_n 2 (matching same_case (codes "a") small_file.scanned) in
    read_log_file same_case small_file (codes "old" ∷ [] ∷ []) 2 (codes "a") (pos 3)
    ≡ lines_read (if is_positive (pos 3) then trim_lines_to_bytes found (pos 3) else found)
read_log_file_example =
    read_log_file-last_n same_case small_file (codes "old" ∷ [] ∷ []) 2 (codes "a") (pos 3) 12
      (omega arith) refl
      (record {
        opens = refl;
        stat = refl;
        fits = omega arith;
        live = (refl, (refl, (refl, (refl, tt))));
        scanned = refl;
      })

abbrev two_entries : List Entry
two_entries =
    record { message = some (codes "MESSAGE=new"); usec = none }
    ∷ record { message = some (codes "MESSAGE=old"); usec = some 1_500_000 }
    ∷ []

abbrev no_time : ℕ → ℕ → Text
no_time sec nsec = []

read_journal_log_example :
    let found = reverse (take 5 (lines_of same_case no_time [] two_entries)) in
    read_journal_log same_case no_time
      (record { opens = true; match_added = true; seeks = true; calls = calls_of two_entries })
      5
      []
      (negsuc 0)
    ≡ lines_read (if is_positive (negsuc 0) then trim_lines_to_bytes found (negsuc 0) else found)
read_journal_log_example =
    read_journal_log-take same_case no_time
      (record { opens = true; match_added = true; seeks = true; calls = calls_of two_entries })
      two_entries 5 [] (negsuc 0) refl refl refl refl

-- A search of five bytes, cut inside of its second character, é.
abbrev accents : Text
accents = 0xC3 ∷ 0xA9 ∷ 0xC3 ∷ 0xA9 ∷ b'a' ∷ []

truncate_search_example :
    ((length accents ≤ 3) × (truncate_search accents 3 ≡ accents))
    ⊎ ((3 < length accents)
        × Begins accents (truncate_search accents 3)
        × (length (truncate_search accents 3) ≤ 3)
        × (valid_string (truncate_search accents 3) ≡ true))
truncate_search_example = truncate_search_lem accents 3
