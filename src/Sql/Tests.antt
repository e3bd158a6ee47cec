-- ===== src/Sql/Tests.antt =====
-- Queries at the lexer and the parser, and the theorems at concrete inputs.
use dbms_project_sp.Base.{
  ◌+◌, ◌≤◌, ◌≡◌, ◌≢◌, ◌⊎◌, refl, map, List, [], ◌∷◌, ◌++◌, Option, none, some, true, false, Result,
  ok, err, length, is_space, is_alpha, is_digit, is_alnum, String, codes, to_upper,
}
use dbms_project_sp.Sql.Token.{Token, str_literal, semicolon, identifier, kw_drop, kw_table}
use dbms_project_sp.Sql.Keyword.{to_keyword, to_keyword-to_upper}
use dbms_project_sp.Sql.Lexer.{LexError, at, read_string, span_from, is_word, tokenize}
use dbms_project_sp.Sql.Lexer.Reads.{newlines}
use dbms_project_sp.Sql.Lexer.Spelled.{is_unknown}
use dbms_project_sp.Sql.Lexer.Rounds.{tokenize-unknown}
use dbms_project_sp.Sql.Lexer.Literal.{escape, read_string-escape}
use dbms_project_sp.Sql.Ast.{Command, Comparison, eq}
use dbms_project_sp.Sql.Cursor.{check, ParseError, out_of_fuel}
use dbms_project_sp.Sql.Conditions.Formula.{
  Formula, atom, both, either, token, IsWellFormed, Follows,
}
use dbms_project_sp.Sql.Parser.{parse}
use dbms_project_sp.Sql.Parser.Ending.{parse_total}

-- The command that a query holds; an error of the lexer gives none.
abbrev command_of : Result ParseError (Command × List Token) → Option Command
command_of (ok (c, _)) = some c
command_of (err e) = none

abbrev parsed : Result LexError (List Token) → Option Command
parsed (ok ts) = command_of (parse ts)
parsed (err e) = none

unfoldable query : String → Option Command
unfolding parse tokenize
query q = parsed (tokenize (codes q))

-- The minus sign and the digit behind it are lost.
negative_value : query "INSERT INTO t VALUES (-42)" ≡ query "INSERT INTO t VALUES (2)"
unfolding query is_space is_alpha is_digit span_from is_word is_alnum
negative_value = refl

tokenize-unknown_example : tokenize (codes "-42") ≡ tokenize (codes "2")
unfolding is_unknown
tokenize-unknown_example = tokenize-unknown 45 52 (50 ∷ []) refl refl

read_string-escape_example :
    read_string (at (39 ∷ (escape 39 (codes "it's") ++ 39 ∷ codes " x")) 3)
    ≡ ok (
      record { kind = str_literal; value = codes "it's"; line = 3 },
      at (codes " x") (3 + newlines (codes "it's")),
    )
read_string-escape_example = read_string-escape 39 (codes "it's") (codes " x") 3 refl

to_keyword-to_upper_example :
    to_keyword (map to_upper (codes "Select")) ≡ to_keyword (codes "Select")
to_keyword-to_upper_example = to_keyword-to_upper (codes "Select")

abbrev pub column_is : String → String → Comparison
column_is column text = record {
  left = codes column;
  left_is_column = true;
  op = eq;
  right = codes text;
  right_is_column = false;
  right2 = [];
  right2_is_column = false;
}

abbrev pub nested : Formula
nested =
    both (atom (column_is "a" "1")) (either (atom (column_is "b" "2")) (atom (column_is "c" "3")))

pub nested-IsWellFormed : IsWellFormed nested
nested-IsWellFormed = (λ e. (refl, refl), (λ e. (refl, refl), λ e. (refl, refl)))

abbrev pub ends : List Token
ends = token semicolon [] ∷ []

pub ends-Follows : Follows ends
unfolding check
ends-Follows = record { no_and = refl; no_or = refl }

abbrev drop_table : List Token
drop_table =
    token kw_drop (codes "DROP")
    ∷ token kw_table (codes "TABLE")
    ∷ token identifier (codes "t")
    ∷ ends

parse_total_example :
    ((c : Command) × (rest : List Token) × (parse drop_table ≡ ok (c, rest))
      × (length rest ≤ length drop_table))
    ⊎ ((e : ParseError) × (parse drop_table ≡ err e) × (e ≢ out_of_fuel))
parse_total_example = parse_total drop_table
