-- ===== src/Server/Logs/Handler.antt =====
-- handleGetLogs of server/handlerlog.go.
use xray_web_maneger.Common.{
  ℕ, Text, text_eq, is_empty, codes, ◌||◌, Option, none, some, List, [], ltb, leb, if◌then◌else◌,
  ◌≤◌, arith,
}
use xray_web_maneger.Common.Int.{ℤ, pos, negsuc}
use xray_web_maneger.Common.Strings.{trim_space, atoi}
use xray_web_maneger.Config.{LogConfig}
use xray_web_maneger.Server.Logs.{
  log_default_lines, log_max_lines, max_search_length, LogFile, ReadResult, lines_read, read_failed,
  read_log_file,
}
use xray_web_maneger.Server.Logs.Search.{truncate_search}
use xray_web_maneger.Server.Logs.Journal.{Journal, read_journal_log}
use xray_web_maneger.Server.Reply.{Reply, ok_json, error_json}

-- logResponse, without its error field, which no handler sets.
pub record LogResponse : Type 0 where
  pub lines : List Text
  pub source : Text

-- What the operating system holds under a path and a unit's name.
pub record LogSources : Type 0 where
  pub file : Text → LogFile
  pub unit : Text → Journal
  -- The slice from the pool, cut or made to the given length.
  pub pooled : ℕ → List Text

-- The number of lines that the query asks for, at most log_max_lines.
abbrev requested : Option ℤ → ℕ
requested none = log_default_lines
requested (some (pos n)) = if leb 1 n then n else log_default_lines
requested (some (negsuc n)) = log_default_lines

pub max_lines_of : Text → ℕ
max_lines_of lines_param =
    let n = if is_empty lines_param then log_default_lines else requested (atoi lines_param) in
    if ltb log_max_lines n then log_max_lines else n

abbrev answer_lines : Text → ReadResult → Reply LogResponse
answer_lines source (read_failed err) = error_json 500 "读取日志失败" "log_read"
answer_lines source (lines_read lines) = ok_json (record { lines = lines; source = source })

module _ (to_lower : Text → Text) (format_time : ℕ → ℕ → Text) where
  pub handle_get_logs : LogConfig → LogSources → Text → Text → Reply LogResponse
  handle_get_logs cfg sources lines_param search_param =
      let max_lines = max_lines_of lines_param in
      let search = truncate_search (trim_space search_param) max_search_length in
      if text_eq cfg.log_type (codes "none") || is_empty cfg.log_type
      then ok_json (record { lines = []; source = codes "none" })
      else if text_eq cfg.log_type (codes "file")
      then answer_lines cfg.log_type (
          read_log_file to_lower (sources.file cfg.file_path) (sources.pooled max_lines) max_lines
            search cfg.max_bytes)
      else if text_eq cfg.log_type (codes "journal")
      then answer_lines cfg.log_type (
          read_journal_log to_lower format_time (sources.unit cfg.journal) max_lines search
            cfg.max_bytes)
      else error_json 400 "不支持的日志类型" "validation"

-- Whatever the query says, the number of lines to read is at least 1 and at most log_max_lines.
pub max_lines_of_bounds :
    (lines_param : Text)
    → (1 ≤ max_lines_of lines_param) × (max_lines_of lines_param ≤ log_max_lines)
unfolding max_lines_of
max_lines_of_bounds lines_param = ground arith
