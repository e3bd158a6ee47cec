-- ===== src/Sql/Lexer/Literal.antt =====
-- String literals: every text has one, and the lexer reads it back.
use dbms_project_sp.Base.{
  ℕ, ◌+◌, ◌≡◌, true, false, ◌||◌, [], ◌∷◌, ◌++◌, some, arith, ◌==◌, if◌then◌else◌, Bool-cases, inl,
  inr, ok, Bytes, ◌∙◌, ap,
}
use dbms_project_sp.Sql.Token.{str_literal}
use dbms_project_sp.Sql.Lexer.{at, next_line, advance, prepend, string_from, unescape, read_string}
use dbms_project_sp.Sql.Lexer.Reads.{newlines}

-- The text as it is written between two such quotes.
pub escape : ℕ → Bytes → Bytes
escape quote [] = []
escape quote (c ∷ cs) =
    let rest = escape quote cs in if c == quote || c == b'\\' then b'\\' ∷ c ∷ rest else c ∷ rest

abbrev pub IsQuote : ℕ → Type 0
IsQuote quote = (quote == b'\'' || quote == b'"') ≡ true

string_from-close :
    (quote : ℕ) (rest : Bytes) (line : ℕ)
    → string_from quote (quote ∷ rest) line ≡ some ([], at (quote ∷ rest) line)
unfolding string_from
string_from-close quote [] line = ground arith
string_from-close quote (c ∷ rest) line = ground arith

string_from-plain :
    (quote c : ℕ) (cs : Bytes) (line : ℕ)
    → (c == quote || c == b'\\') ≡ false
    → string_from quote (c ∷ cs) line ≡ prepend (c ∷ []) (string_from quote cs (next_line c line))
unfolding string_from
string_from-plain quote c [] line h = ground arith
string_from-plain quote c (e ∷ cs) line h = ground arith

string_from-escaped :
    (quote c : ℕ) (cs : Bytes) (line : ℕ)
    → IsQuote quote
    → (c == quote || c == b'\\') ≡ true
    → string_from quote (b'\\' ∷ c ∷ cs) line ≡ prepend (c ∷ []) (string_from quote cs line)
unfolding string_from unescape
string_from-escaped quote c cs line q h = ground arith

escaped_lines :
    (quote c line n : ℕ)
    → IsQuote quote
    → (c == quote || c == b'\\') ≡ true
    → line + n ≡ line + ((if c == b'\n' then 1 else 0) + n)
escaped_lines quote c line n q h = ground arith

plain_lines : (c line n : ℕ) → next_line c line + n ≡ line + ((if c == b'\n' then 1 else 0) + n)
plain_lines c line n = ground arith

string_from-escape :
    (quote : ℕ) (s rest : Bytes) (line : ℕ)
    → IsQuote quote
    → string_from quote (escape quote s ++ quote ∷ rest) line
      ≡ some (s, at (quote ∷ rest) (line + newlines s))
unfolding escape
string_from-escape quote [] rest line q =
    string_from-close quote rest line ∙ ap (λ l. some ([], at (quote ∷ rest) l)) (omega arith)
string_from-escape quote (c ∷ s) rest line q = elim (Bool-cases (c == quote || c == b'\\')) [
  | inl h ↦
      rw (h, string_from-escaped quote c _ line q h, string_from-escape quote s rest line q)
        (ap (λ l. some (c ∷ s, at (quote ∷ rest) l)) (escaped_lines quote c line (newlines s) q h))
  | inr h ↦
      rw (h, string_from-plain quote c _ line h, string_from-escape quote s rest _ q)
        (ap (λ l. some (c ∷ s, at (quote ∷ rest) l)) (plain_lines c line (newlines s)))
]

quote_line : (quote line : ℕ) → IsQuote quote → next_line quote line ≡ line
quote_line quote line q = ground arith

-- Every text, written between two quotes of either kind with the quotes and backslashes in it
-- escaped, is read back as the value of one string token, whatever follows it, and the lexer then
-- stands behind the closing quote with the newlines of the text counted.
pub read_string-escape :
    (quote : ℕ) (s rest : Bytes) (line : ℕ)
    → IsQuote quote
    → read_string (at (quote ∷ (escape quote s ++ quote ∷ rest)) line)
      ≡ ok (record { kind = str_literal; value = s; line = line }, at rest (line + newlines s))
unfolding read_string advance
read_string-escape quote s rest line q = rw (
  quote_line quote line q,
  string_from-escape quote s rest line q,
  quote_line quote (line + newlines s) q,
)
