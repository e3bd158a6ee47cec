-- ===== src/Sql/Cursor.antt =====
-- server/parser/src/parser.cpp: the members that walk over the tokens, and the leaves of the grammar.
use dbms_project_sp.Base.{
  ℕ, zero, suc, Bool, true, false, not, ◌&&◌, ◌||◌, List, [], ◌∷◌, length, leb, if◌then◌else◌,
  Result, ok, err, Bytes, String, codes,
}
use dbms_project_sp.Base.Int.{ℤ}
use dbms_project_sp.Base.Number.{NumberError, stoi}
use dbms_project_sp.Sql.Token.{
  TokenType, Token, same, rank, kw_create, kw_avg, kw_null, identifier, int_literal, str_literal,
  dot, comma, end,
}
use dbms_project_sp.Sql.Ast.{SqlValue, int, str, monostate, TableRef}

-- `ParseError`, one constructor for each place that throws, with what its message shows; and
-- the exceptions of `std::stoi`.
pub data ParseError : Type 0 where
  empty_input unexpected_end : ParseError
  unexpected_token expected_value expected_operand expected_comparison : Token → ParseError
  expected_database_or_table : Token → ParseError
  expected : String → Token → ParseError
  unknown_type : Token → ParseError
  bad_number : NumberError → ParseError
  -- of the model alone: a loop was given too few rounds
  out_of_fuel : ParseError

-- `_tokens` from `_pos` on is the state.
abbrev pub Parse : Type 0 → Type 0
Parse A = List Token → Result ParseError (A × List Token)

abbrev pub pure : {A : Type 0} → A → Parse A
pure a ts = ok (a, ts)

abbrev pub throw : {A : Type 0} → ParseError → Parse A
throw e ts = err e

abbrev pub then_on :
    {A B : Type 0}
    → Result ParseError (A × List Token)
    → (A → Parse B)
    → Result ParseError (B × List Token)
then_on (ok (a, ts)) f = f a ts
then_on (err e) f = err e

infixl 5 ◌>>=◌ ◌>>◌
abbrev pub ◌>>=◌ : {A B : Type 0} → Parse A → (A → Parse B) → Parse B
◌>>=◌ m f ts = then_on (m ts) f

abbrev pub ◌>>◌ : {A B : Type 0} → Parse A → Parse B → Parse B
m >> k = m >>= λ _. k

unfoldable pub is_end : List Token → Bool
unfolding same
is_end [] = true
is_end (t ∷ ts) = same t.kind end

abbrev head : List Token → Result ParseError (Token × List Token)
head [] = err unexpected_end
head (t ∷ ts) = ok (t, t ∷ ts)

abbrev shift : List Token → Result ParseError (Token × List Token)
shift [] = err unexpected_end
shift (t ∷ ts) = ok (t, ts)

unfoldable pub peek : Parse Token
unfolding is_end
peek ts = if is_end ts then err unexpected_end else head ts

unfoldable pub advance : Parse Token
unfolding is_end
advance ts = if is_end ts then err unexpected_end else shift ts

abbrev pub has_kind : TokenType → List Token → Bool
has_kind kind [] = false
has_kind kind (t ∷ ts) = same t.kind kind

unfoldable pub check : TokenType → List Token → Bool
unfolding is_end same
check kind ts = not (is_end ts) && has_kind kind ts

abbrev pub skip_one : List Token → List Token
skip_one [] = []
skip_one (t ∷ ts) = ts

unfoldable pub match : TokenType → Parse Bool
unfolding check
match kind ts = if check kind ts then ok (true, skip_one ts) else ok (false, ts)

unfoldable pub checks : TokenType → Parse Bool
unfolding check
checks kind ts = ok (check kind ts, ts)

unfoldable pub is_keyword : TokenType → Bool
unfolding rank
is_keyword kind = leb (rank kw_create) (rank kind) && leb (rank kind) (rank kw_avg)

abbrev pub head_is_keyword : List Token → Bool
head_is_keyword [] = false
head_is_keyword (t ∷ ts) = is_keyword t.kind

-- A token of the kind, or, where a name is wanted, one of the keywords from CREATE on.
unfoldable pub expect : TokenType → String → Parse Token
unfolding advance peek check is_keyword
expect kind context ts =
    if check kind ts
    then advance ts
    else if same kind identifier && not (is_end ts) && head_is_keyword ts
    then advance ts
    else (peek >>= λ current. throw (expected context current)) ts

unfoldable pub parse_table_ref : Parse TableRef
unfolding match expect
parse_table_ref = do
  first ← expect identifier "table name"
  qualified ← match dot
  if qualified
      then (do
        second ← expect identifier "table name after dot"
        pure (record { db_name = first.value; table_name = second.value }))
      else pure (record { db_name = []; table_name = first.value })

abbrev pub int_value : Result NumberError (ℤ × Bytes) → Parse SqlValue
int_value (ok (n, rest)) = pure (int n)
int_value (err e) = throw (bad_number e)

unfoldable pub parse_value : Parse SqlValue
unfolding match check advance peek
parse_value = do
  is_null ← match kw_null
  if is_null then pure monostate else λ ts.
      if check int_literal ts
      then (advance >>= λ t. int_value (stoi t.value)) ts
      else if check str_literal ts
      then (advance >>= λ t. pure (str t.value)) ts
      else (peek >>= λ t. throw (expected_value t)) ts

-- The text of an operand, and whether it is a column.
unfoldable pub parse_operand : Parse (Bytes × Bool)
unfolding peek advance
parse_operand = do
  token ← peek
  if same token.kind identifier
      then (do t ← advance; pure (t.value, true))
      else if same token.kind int_literal || same token.kind str_literal
      then (do t ← advance; pure (t.value, false))
      else if same token.kind kw_null
      then (do advance; pure (codes "NULL", false))
      else throw (expected_operand token)

-- `do p … while (match(COMMA))`; a round that goes on consumes the comma.
unfoldable pub comma_list : {A : Type 0} → ℕ → Parse A → Parse (List A)
unfolding match
comma_list zero p = throw out_of_fuel
comma_list (suc fuel) p = do
  a ← p
  again ← match comma
  if again then (do more ← comma_list fuel p; pure (a ∷ more)) else pure (a ∷ [])

-- A loop gets as many rounds as there are tokens left, and one more.
unfoldable pub comma_separated : {A : Type 0} → Parse A → Parse (List A)
unfolding comma_list
comma_separated p ts = comma_list (suc (length ts)) p ts
