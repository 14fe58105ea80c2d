-- ===== src/Kindle/Shell/Words.antt =====
-- What a POSIX shell reads from a quoted value.
use atlas.Base.{
  ℕ, ◌≡◌, refl, Bool, ◌&&◌, ◌||◌, leb, [], ◌∷◌, ◌++◌, append_assoc, Text, ◌==◌, if◌then◌else◌,
  arith, Bool-cases, inl, inr,
}
use atlas.Kindle.Shell.{quote_mark, backslash, escape_quotes, shell_quote}

-- Characters that stand for themselves in a word, without quotes.
abbrev pub plain : ℕ → Bool
plain c =
    leb b'a' c && leb c b'z'
    || leb b'A' c && leb c b'Z'
    || leb b'0' c && leb c b'9'
    || leb b'+' c && leb c b'/'
    || c == b'_'
    || c == b'%'
    || c == b':'
    || c == b'@'

abbrev before : ℕ → Text × Text → Text × Text
before c (word, rest) = (c ∷ word, rest)

-- The word at the front of a command line, and what follows it: between single quotes every
-- character stands for itself, and outside them so does one behind a backslash.
unfoldable mutual
  pub unquoted : Text → Text × Text
  unquoted [] = ([], [])
  unquoted (c ∷ s) =
      let inner = single_quoted s in
      let next = before c (unquoted s) in
      let literal = escaped_next c s in
      if c == quote_mark
      then inner
      else if c == backslash
      then literal
      else if plain c
      then next
      else ([], c ∷ s)

  pub escaped_next : ℕ → Text → Text × Text
  escaped_next b [] = (b ∷ [], [])
  escaped_next b (c ∷ s) = before c (unquoted s)

  pub single_quoted : Text → Text × Text
  single_quoted [] = ([], [])
  single_quoted (c ∷ s) =
      let outer = unquoted s in
      let next = before c (single_quoted s) in if c == quote_mark then outer else next

quoted_part :
    (value rest : Text)
    → single_quoted (escape_quotes value ++ quote_mark ∷ rest)
      ≡ (value ++ (unquoted rest).0, (unquoted rest).1)
unfolding single_quoted escape_quotes unquoted escaped_next
quoted_part [] rest = refl
quoted_part (c ∷ s) rest = elim (Bool-cases (c == quote_mark)) [
  | inl same ↦ ground (arith, quoted_part s rest)
  | inr other ↦ ground (arith, quoted_part s rest)
]

-- Whatever it holds, a value that is quoted is read back by the shell as it is, in one word with
-- what follows directly.
pub shell_quote-unquoted :
    (value rest : Text)
    → unquoted (shell_quote value ++ rest) ≡ (value ++ (unquoted rest).0, (unquoted rest).1)
unfolding shell_quote unquoted
shell_quote-unquoted value rest =
    rw (append_assoc (escape_quotes value) (quote_mark ∷ []) rest) (quoted_part value rest)
