-- ===== src/Sql/Lexer/Spelled.antt =====
-- What stands in the input: tokens, and what the lexer passes over between them.
use dbms_project_sp.Base.{
  ℕ, ◌≡◌, All, Bool-cases, is_space, Bool, true, false, not, ◌||◌, [], ◌∷◌, ◌++◌, Option, none,
  some, ◌⊎◌, inl, inr, ◌==◌, Bytes, is_alpha, is_digit, is_upper, is_lower,
}
use dbms_project_sp.Sql.Token.{
  TokenType, Token, same, int_literal, str_literal, op_eq, op_neq, op_lt, op_gt, op_lte, op_gte,
  op_assign, comma, semicolon, lparen, rparen, star, dot, backtick, end,
}
use dbms_project_sp.Sql.Keyword.{to_keyword}
use dbms_project_sp.Sql.Lexer.{
  Lexer, at, next_line, advance, skip_from, skip_whitespace, is_word, string_from,
}

-- The text of a token of punctuation.
abbrev pub symbol_text : TokenType → Option Bytes
symbol_text op_eq = some (b'=' ∷ b'=' ∷ [])
symbol_text op_neq = some (b'!' ∷ b'=' ∷ [])
symbol_text op_lte = some (b'<' ∷ b'=' ∷ [])
symbol_text op_gte = some (b'>' ∷ b'=' ∷ [])
symbol_text op_lt = some (b'<' ∷ [])
symbol_text op_gt = some (b'>' ∷ [])
symbol_text op_assign = some (b'=' ∷ [])
symbol_text comma = some (b',' ∷ [])
symbol_text semicolon = some (b';' ∷ [])
symbol_text lparen = some (b'(' ∷ [])
symbol_text rparen = some (b')' ∷ [])
symbol_text star = some (b'*' ∷ [])
symbol_text dot = some (b'.' ∷ [])
symbol_text backtick = some (b'`' ∷ [])
symbol_text _ = none

-- The input does not go on with such a byte.
abbrev pub Stops : (ℕ → Bool) → Bytes → Type 0
Stops test [] = Unit
Stops test (c ∷ cs) = test c ≡ false

-- One of the signs that a `=` behind it makes another of.
abbrev pub grows : TokenType → Bool
grows op_lt = true
grows op_gt = true
grows op_assign = true
grows _ = false

-- The longest run of bytes that pass the test is the value.
pub record IsRun (test : ℕ → Bool) (t : Token) (input rest : Bytes) : Type 0 where
  pub splits : input ≡ t.value ++ rest
  pub passes : All (λ c. test c ≡ true) t.value
  pub stops : Stops test rest

-- A token and the lexer behind it: a word, which is a keyword or an identifier, or a number, both as
-- long as they go; a string up to its closing quote; or punctuation, the longer one where there are
-- two.
pub data Spelled (s : Lexer) (t : Token) (v : Lexer) : Type 0 where
  word : t.kind ≡ to_keyword t.value → IsRun is_word t s.rest v.rest → Spelled s t v
  number : t.kind ≡ int_literal → IsRun is_digit t s.rest v.rest → Spelled s t v
  text :
      (quote : ℕ) (body : Bytes) (close : Lexer)
      → t.kind ≡ str_literal
      → (quote == b'\'' || quote == b'"') ≡ true
      → s.rest ≡ quote ∷ body
      → string_from quote body s.line ≡ some (t.value, close)
      → v ≡ (advance close).1
      → Spelled s t v
  symbol :
      symbol_text t.kind ≡ some t.value
      → s.rest ≡ t.value ++ v.rest
      → (grows t.kind ≡ true → Stops (λ c. c == b'=') v.rest)
      → Spelled s t v

pub record TokenAt (s : Lexer) (t : Token) (v : Lexer) : Type 0 where
  pub line_is : t.line ≡ s.line
  pub not_end : same t.kind end ≡ false
  pub spelled : Spelled s t v

-- No token begins with the byte, and it is no blank.
unfoldable pub is_unknown : ℕ → Bool
unfolding is_space is_alpha is_digit is_upper is_lower
is_unknown c = not (
    is_space c
    || is_alpha c
    || is_digit c
    || c == b'_'
    || c == b'\''
    || c == b'"'
    || c == b'='
    || c == b'!'
    || c == b'<'
    || c == b'>'
    || c == b','
    || c == b';'
    || c == b'('
    || c == b')'
    || c == b'*'
    || c == b'.'
    || c == b'`')

-- No token begins at the byte: it begins none, or it is a `!` without a `=` behind it.
abbrev pub BeginsNone : ℕ → Bytes → Type 0
BeginsNone c cs = (is_unknown c ≡ true) ⊎ (((c == b'!') ≡ true) × Stops (λ d. d == b'=') cs)

-- What is passed over: blanks, and bytes that begin no token, each with the byte behind it.
pub data Gap : Lexer → Lexer → Type 0 where
  nothing : {s : Lexer} → Gap s s
  blank :
      {c line : ℕ} {cs : Bytes} {u : Lexer}
      → is_space c ≡ true
      → Gap (at cs (next_line c line)) u
      → Gap (at (c ∷ cs) line) u
  unknown :
      {c line : ℕ} {cs : Bytes} {u : Lexer}
      → BeginsNone c cs
      → Gap (advance (at cs (next_line c line))).1 u
      → Gap (at (c ∷ cs) line) u

pub Gap-trans : {s t u : Lexer} → Gap s t → Gap t u → Gap s u
Gap-trans nothing h = h
Gap-trans (blank b g) h = blank b (Gap-trans g h)
Gap-trans (unknown b g) h = unknown b (Gap-trans g h)

skip_from-Gap :
    (cs : Bytes) (line : ℕ)
    → Gap (at cs line) (skip_from cs line) × Stops is_space (skip_from cs line).rest
unfolding skip_from
skip_from-Gap [] line = (nothing, tt)
skip_from-Gap (c ∷ cs) line = elim (Bool-cases (is_space c)) [
  | inl e ↦ let (gap, stops) = skip_from-Gap cs (next_line c line) in rw e (blank e gap, stops)
  | inr e ↦ rw e (nothing, e)
]

pub skip_whitespace-Gap :
    (s : Lexer) → Gap s (skip_whitespace s) × Stops is_space (skip_whitespace s).rest
unfolding skip_whitespace
skip_whitespace-Gap s = skip_from-Gap s.rest s.line
