-- ===== src/Sql/Lexer/Total.antt =====
-- `tokenize` ends on every input, with the tokens in the order and on the lines of the input.
use dbms_project_sp.Base.{
  ℕ, ◌≡◌, true, List, [], ◌∷◌, ◌++◌, none, ◌==◌, ◌||◌, Result, ok, err, Bytes,
}
use dbms_project_sp.Sql.Token.{Token}
use dbms_project_sp.Sql.Lexer.{Lexer, LexError, unclosed_string, next_line, string_from, end_token}
use dbms_project_sp.Sql.Lexer.Spelled.{TokenAt, Gap}
use dbms_project_sp.Sql.Lexer.Finds.{Finds}

-- The tokens that the lexer passes on its way: gaps and tokens in turn, nothing else.
pub data Passed : Lexer → List Token → Lexer → Type 0 where
  here : {s u : Lexer} → Gap s u → Passed s [] u
  past :
      {s u v w : Lexer} {t : Token} {ts : List Token}
      → Gap s u
      → TokenAt u t v
      → Passed v ts w
      → Passed s (t ∷ ts) w

-- The tokens are those of the whole input, and `END` on the line where the input ends.
pub record Tokenized (s : Lexer) (ts : List Token) : Type 0 where
  pub tokens : List Token
  pub last : Lexer
  pub passed : Passed s tokens last
  pub at_end : last.rest ≡ []
  pub tokens_are : ts ≡ tokens ++ end_token last.line ∷ []

-- Behind some tokens stands a quote that is never closed.
pub record Unclosed (s : Lexer) (e : LexError) : Type 0 where
  pub tokens : List Token
  pub place : Lexer
  pub passed : Passed s tokens place
  pub quote : ℕ
  pub text : Bytes
  pub splits : place.rest ≡ quote ∷ text
  pub is_quote : (quote == b'\'' || quote == b'"') ≡ true
  pub open_at : string_from quote text (next_line quote place.line) ≡ none
  pub error_is : e ≡ unclosed_string place.line

abbrev Outcome : Lexer → Result LexError (List Token) → Type 0
Outcome s (ok ts) = Tokenized s ts
Outcome s (err e) = Unclosed s e
