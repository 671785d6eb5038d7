-- ===== src/Server/Logs/Reading.antt =====
-- readLogFile as a whole: the result on every branch.
use xray_web_maneger.Common.{
  ℕ, ◌≤◌, ◌<◌, ◌≡◌, Text, true, false, none, some, List, [], length, arith, if◌then◌else◌,
}
use xray_web_maneger.Common.Int.{ℤ, is_positive}
use xray_web_maneger.Server.Logs.{
  LogFile, Ring, lines_read, read_failed, open_failed, stat_failed, file_too_large,
  log_max_file_size, trim_lines_to_bytes, unroll, scan, read_log_file,
}
use xray_web_maneger.Server.Logs.RingBuffer.{
  scan-Holds, matching, NotCancelled, last_n, empty-Holds,
}

-- A file that the operating system reads to its end, in time, and that is not too large.
pub record IsReadable (file : LogFile) (size : ℕ) : Type 0 where
  pub opens : file.opens ≡ true
  pub stat : file.stat ≡ some size
  pub fits : size ≤ log_max_file_size
  pub live : NotCancelled file.scanned
  pub scanned : file.scan_ok ≡ true

module _ (to_lower : Text → Text) where
  read_log_file-eq :
      (file : LogFile) (pooled : List Text) (max_lines : ℕ) (search : Text) (max_bytes : ℤ)
      (size : ℕ) (r : Ring)
      → file.opens ≡ true
      → file.stat ≡ some size
      → size ≤ log_max_file_size
      → file.scan_ok ≡ true
      → scan to_lower max_lines search (record { slots = pooled; pos = 0; count = 0 }) file.scanned
        ≡ some r
      → read_log_file to_lower file pooled max_lines search max_bytes
        ≡ lines_read (
            if is_positive max_bytes
            then trim_lines_to_bytes (unroll max_lines r) max_bytes
            else unroll max_lines r)
  unfolding read_log_file
  read_log_file-eq file pooled max_lines search max_bytes size r o st f ok e = ground arith

  -- A readable file gives the last max_lines of its lines that match, in order, cut to max_bytes
  -- if that is positive, whatever the slice from the pool held before.
  pub read_log_file-last_n :
      (file : LogFile) (pooled : List Text) (max_lines : ℕ) (search : Text) (max_bytes : ℤ)
      (size : ℕ)
      → 0 < max_lines
      → length pooled ≡ max_lines
      → IsReadable file size
      → let found = last_n max_lines (matching to_lower search file.scanned) in
        read_log_file to_lower file pooled max_lines search max_bytes
        ≡ lines_read (if is_positive max_bytes then trim_lines_to_bytes found max_bytes else found)
  read_log_file-last_n file pooled max_lines search max_bytes size p e c =
      let (r, done, h) =
        scan-Holds to_lower max_lines search (record { slots = pooled; pos = 0; count = 0 }) []
          file.scanned (empty-Holds max_lines pooled p e) c.live in
      rw (
        read_log_file-eq file pooled max_lines search max_bytes size r c.opens c.stat c.fits
            c.scanned done,
        h.content,
      )

  -- Every other file gives an error, the first that applies.
  pub read_log_file_fails :
      (file : LogFile) (pooled : List Text) (max_lines : ℕ) (search : Text) (max_bytes : ℤ)
      → let result = read_log_file to_lower file pooled max_lines search max_bytes in
        (file.opens ≡ false → result ≡ read_failed open_failed)
        × (file.opens ≡ true → file.stat ≡ none → result ≡ read_failed stat_failed)
        × ((size : ℕ)
            → file.opens ≡ true
            → file.stat ≡ some size
            → log_max_file_size < size
            → result ≡ read_failed (file_too_large size))
  unfolding read_log_file
  read_log_file_fails file pooled max_lines search max_bytes =
      (λ o. ground arith, λ o s. ground arith, λ size o s l. ground arith)
