-- ===== src/Server/Logs/Journal/Entries.antt =====
-- The journal's lines against a description without a loop.
use xray_web_maneger.Common.{
  ℕ, zero, suc, ◌≡◌, refl, ap, ◌∙◌, Text, Bool, true, false, none, some, List, [], ◌∷◌, reverse,
  take, map, arith, if◌then◌else◌,
}
use xray_web_maneger.Common.Int.{ℤ, is_positive}
use xray_web_maneger.Server.Logs.{lines_read, trim_lines_to_bytes}
use xray_web_maneger.Server.Logs.Journal.{
  Entry, Previous, entry, Journal, line_from, collect, read_journal_log,
}

-- Calls that all give an entry, before the context is done.
abbrev pub calls_of : List Entry → List (Bool × Previous)
calls_of es = map (λ e. (false, entry e)) es

module _ (to_lower : Text → Text) (format_time : ℕ → ℕ → Text) where
  -- The lines of the entries that have a message and match, newest first.
  abbrev pub lines_of : Text → List Entry → List Text
  lines_of query [] = []
  lines_of query (e ∷ es) = elim (line_from to_lower format_time query e) [
    | none ↦ lines_of query es
    | some line ↦ line ∷ lines_of query es
  ]

  collect-take :
      (query : Text) (room : ℕ) (es : List Entry)
      → collect to_lower format_time query room (calls_of es)
        ≡ lines_read (take room (lines_of query es))
  unfolding collect
  collect-take query zero es = refl
  collect-take query (suc room) [] = refl
  collect-take query (suc room) (e ∷ es) =
      ground (arith, collect-take query (suc room) es, collect-take query room es)

  -- A journal that opens and whose entries can all be read, in time, gives the newest max_lines of
  -- the lines that match, oldest first, cut to max_bytes if that is positive.
  pub read_journal_log-take :
      (j : Journal) (es : List Entry) (max_lines : ℕ) (query : Text) (max_bytes : ℤ)
      → j.opens ≡ true
      → j.match_added ≡ true
      → j.seeks ≡ true
      → j.calls ≡ calls_of es
      → let found = reverse (take max_lines (lines_of query es)) in
        read_journal_log to_lower format_time j max_lines query max_bytes
        ≡ lines_read (if is_positive max_bytes then trim_lines_to_bytes found max_bytes else found)
  unfolding read_journal_log
  read_journal_log-take j es max_lines query max_bytes o m s c =
      let collected =
        ap (collect to_lower format_time query max_lines) c ∙ collect-take query max_lines es in
      ground (arith, collected)
