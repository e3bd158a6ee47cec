-- ===== src/Sql/Lexer.antt =====
-- server/parser/src/lexer.cpp: from the bytes of a query to its tokens.
pub mod Reads
pub mod Spelled
pub mod Finds
pub mod Total
pub mod Rounds
pub mod Literal
use dbms_project_sp.Base.{
  ℕ, zero, suc, ◌+◌, Bool, true, false, not, ◌&&◌, ◌||◌, List, [], ◌∷◌, ◌++◌, Option, none, some,
  length, ◌==◌, if◌then◌else◌, Result, ok, err, Bytes, is_digit, is_alpha, is_alnum, is_space,
}
use dbms_project_sp.Sql.Token.{
  TokenType, Token, same, int_literal, str_literal, op_eq, op_neq, op_lt, op_gt, op_lte, op_gte,
  op_assign, comma, semicolon, lparen, rparen, star, dot, backtick, end,
}
use dbms_project_sp.Sql.Keyword.{to_keyword}

-- The members `input_` from `pos_` on, and `line_`.
pub record Lexer : Type 0 where
  pub rest : Bytes
  pub line : ℕ

pub data LexError : Type 0 where
  -- `ParseError`, with the line on which the string begins
  unclosed_string : ℕ → LexError
  -- of the model alone: a loop was given too few rounds
  out_of_fuel : LexError

abbrev pub at : Bytes → ℕ → Lexer
at rest line = record { rest = rest; line = line }

abbrev pub next_line : ℕ → ℕ → ℕ
next_line c line = if c == b'\n' then line + 1 else line

abbrev is_end_on : Bytes → Bool
is_end_on [] = true
is_end_on (c ∷ cs) = false

unfoldable pub is_end : Lexer → Bool
is_end s = is_end_on s.rest

abbrev peek_on : Bytes → ℕ
peek_on [] = 0
peek_on (c ∷ cs) = c

unfoldable pub peek : Lexer → ℕ
peek s = peek_on s.rest

abbrev advance_on : Bytes → ℕ → ℕ × Lexer
advance_on [] line = (0, at [] line)
advance_on (c ∷ cs) line = (c, at cs (next_line c line))

unfoldable pub advance : Lexer → ℕ × Lexer
advance s = advance_on s.rest s.line

unfoldable pub skip_from : Bytes → ℕ → Lexer
skip_from [] line = at [] line
skip_from (c ∷ cs) line =
    let more = skip_from cs (next_line c line) in if is_space c then more else at (c ∷ cs) line

unfoldable pub skip_whitespace : Lexer → Lexer
unfolding skip_from
skip_whitespace s = skip_from s.rest s.line

-- The loops of `readWord` and `readNumber`: the bytes that pass the test are taken off.
unfoldable pub span_from : (ℕ → Bool) → Bytes → ℕ → Bytes × Lexer
span_from test [] line = ([], at [] line)
span_from test (c ∷ cs) line =
    let (taken, s) = span_from test cs (next_line c line) in
    if test c then (c ∷ taken, s) else ([], at (c ∷ cs) line)

unfoldable pub is_word : ℕ → Bool
is_word c = is_alnum c || c == b'_'

unfoldable pub read_word : Lexer → Token × Lexer
read_word s =
    let (word, s') = span_from is_word s.rest s.line in
    (record { kind = to_keyword word; value = word; line = s.line }, s')

unfoldable pub read_number : Lexer → Token × Lexer
read_number s =
    let (number, s') = span_from is_digit s.rest s.line in
    (record { kind = int_literal; value = number; line = s.line }, s')

-- What the `switch` of `readString` appends for the byte behind a backslash.
unfoldable pub unescape : ℕ → Bytes
unescape c =
    if c == b'n'
    then b'\n' ∷ []
    else if c == b't'
    then b'\t' ∷ []
    else if c == b'\\'
    then b'\\' ∷ []
    else if c == b'\''
    then b'\'' ∷ []
    else if c == b'"'
    then b'"' ∷ []
    else b'\\' ∷ c ∷ []

abbrev prepend : Bytes → Option (Bytes × Lexer) → Option (Bytes × Lexer)
prepend front none = none
prepend front (some (str, s)) = some (front ++ str, s)

-- The loop of `readString`: the text before the closing quote, and the lexer at that quote;
-- `none` when the input ends first.
unfoldable pub string_from : ℕ → Bytes → ℕ → Option (Bytes × Lexer)
unfolding unescape
string_from quote [] line = none
string_from quote (c ∷ []) line = if c == quote then some ([], at (c ∷ []) line) else none
string_from quote (c ∷ e ∷ cs) line =
    let escaped = string_from quote cs (next_line e (next_line c line)) in
    let plain = string_from quote (e ∷ cs) (next_line c line) in
    if c == quote
    then some ([], at (c ∷ e ∷ cs) line)
    else if c == b'\\'
    then prepend (unescape e) escaped
    else prepend (c ∷ []) plain

abbrev close_string : ℕ → Option (Bytes × Lexer) → Result LexError (Token × Lexer)
close_string start none = err (unclosed_string start)
close_string start (some (str, s)) =
    ok (record { kind = str_literal; value = str; line = start }, (advance s).1)

unfoldable pub read_string : Lexer → Result LexError (Token × Lexer)
unfolding advance
read_string s =
    let (quote, s') = advance s in close_string s.line (string_from quote s'.rest s'.line)

-- A token, or `END` for a byte that begins none; the byte is consumed in both cases.
unfoldable pub read_operator : Lexer → Token × Lexer
unfolding advance is_end peek
read_operator s =
    let (c, s') = advance s in
    let one : TokenType → Token × Lexer =
      λ kind. (record { kind = kind; value = c ∷ []; line = s.line }, s') in
    let two : TokenType → Token × Lexer =
      λ kind. (record { kind = kind; value = c ∷ b'=' ∷ []; line = s.line }, (advance s').1) in
    let unknown : Token × Lexer = (record { kind = end; value = []; line = s.line }, s') in
    let followed = not (is_end s') && peek s' == b'=' in
    if c == b'='
    then (if followed then two op_eq else one op_assign)
    else if c == b'!'
    then (if followed then two op_neq else unknown)
    else if c == b'<'
    then (if followed then two op_lte else one op_lt)
    else if c == b'>'
    then (if followed then two op_gte else one op_gt)
    else if c == b','
    then one comma
    else if c == b';'
    then one semicolon
    else if c == b'('
    then one lparen
    else if c == b')'
    then one rparen
    else if c == b'*'
    then one star
    else if c == b'.'
    then one dot
    else if c == b'`'
    then one backtick
    else unknown

-- What one round of the loop of `tokenize` reads: a token or none, and the lexer behind it.
-- A byte that `readOperator` does not know has been consumed by it; the `advance()` of the caller
-- drops one more byte.
abbrev read_other : Token × Lexer → Option Token × Lexer
read_other (t, s) = if not (same t.kind end) then (some t, s) else (none, (advance s).1)

abbrev found : Token × Lexer → Option Token × Lexer
found (t, s) = (some t, s)

abbrev found_string : Result LexError (Token × Lexer) → Result LexError (Option Token × Lexer)
found_string (ok r) = ok (found r)
found_string (err e) = err e

unfoldable pub read_token : Lexer → Result LexError (Option Token × Lexer)
unfolding read_word read_number read_string read_operator advance peek
read_token s =
    let c = peek s in
    if is_alpha c || c == b'_'
    then ok (found (read_word s))
    else if is_digit c
    then ok (found (read_number s))
    else if c == b'\'' || c == b'"'
    then found_string (read_string s)
    else ok (read_other (read_operator s))

abbrev pub push : Option Token → Result LexError (List Token) → Result LexError (List Token)
push none r = r
push (some t) (ok ts) = ok (t ∷ ts)
push (some t) (err e) = err e

abbrev pub end_token : ℕ → Token
end_token line = record { kind = end; value = []; line = line }

-- What a round does with the token that it has read; `rest` is the rounds that follow.
abbrev pub continue :
    (Lexer → Result LexError (List Token))
    → Result LexError (Option Token × Lexer)
    → Result LexError (List Token)
continue rest (ok (t, s)) = push t (rest s)
continue rest (err e) = err e

unfoldable pub tokenize_round :
    (Lexer → Result LexError (List Token)) → Lexer → Result LexError (List Token)
unfolding is_end
tokenize_round rest s =
    if is_end s then ok (end_token s.line ∷ []) else continue rest (read_token s)

-- The loop of `tokenize`. Each round consumes a byte, so the length of the input bounds the rounds.
unfoldable pub tokenize_from : ℕ → Lexer → Result LexError (List Token)
unfolding tokenize_round
tokenize_from zero s = err out_of_fuel
tokenize_from (suc fuel) s = tokenize_round (tokenize_from fuel) (skip_whitespace s)

unfoldable pub tokenize : Bytes → Result LexError (List Token)
unfolding tokenize_from skip_whitespace read_token is_end
tokenize input = tokenize_from (suc (length input)) (at input 1)
