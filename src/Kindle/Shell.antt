-- ===== src/Kindle/Shell.antt =====
-- internal/kindle/clock.go: the quoting of a value in a command line (`shellQuote`).
pub mod Words
use atlas.Base.{ℕ, List, [], ◌∷◌, ◌++◌, Text, ◌==◌, if◌then◌else◌}

abbrev pub quote_mark : ℕ
quote_mark = 39

abbrev pub backslash : ℕ
backslash = 92

-- strings.ReplaceAll(value, "'", `'\''`)
unfoldable pub escape_quotes : Text → Text
escape_quotes [] = []
escape_quotes (c ∷ s) =
    if c == quote_mark
    then quote_mark ∷ backslash ∷ quote_mark ∷ quote_mark ∷ escape_quotes s
    else c ∷ escape_quotes s

unfoldable pub shell_quote : Text → Text
shell_quote value = quote_mark ∷ (escape_quotes value ++ quote_mark ∷ [])
