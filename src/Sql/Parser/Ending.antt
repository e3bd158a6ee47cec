-- ===== src/Sql/Parser/Ending.antt =====
-- Every statement of the parser ends.
use dbms_project_sp.Base.{
  ℕ, ◌≤◌, ◌≡◌, ◌≢◌, refl, ◌⊎◌, inl, inr, List, length, Result, ok, err, arith,
}
use dbms_project_sp.Sql.Token.{Token}
use dbms_project_sp.Sql.Ast.{Command}
use dbms_project_sp.Sql.Cursor.{ParseError, empty_input, out_of_fuel, peek, ◌>>=◌, is_end}
use dbms_project_sp.Sql.Parser.{
  column_type, parse_column_def, parse_create, parse_drop, parse_use, parse_column_name,
  parse_optional_value, parse_row, parse_column_list, parse_insert, parse_assignment, parse_where,
  parse_update, parse_delete, parse_alias, parse_aggregate, parse_plain_column, parse_select_column,
  parse_select, parse_statement, parse,
}
use dbms_project_sp.Sql.Parser.Total.{
  Total, Ends, Total-bind, leaf_rules, Total-match, Total-match_only, Total-expect,
  Total-parse_value, Total-parse_table_ref, Total-peek, Ends-if, empty_input-ne,
}
use dbms_project_sp.Sql.Parser.Loops.{
  Total-comma_separated, Total-parse_condition, Total-all_modifiers,
}

ruleset rules = (
  leaf_rules, Total-match, Total-expect, Total-parse_value, Total-parse_table_ref,
  Total-comma_separated, Total-parse_condition, Total-all_modifiers,
)

module _ {n : ℕ} where
  Total-column_type : (t : Token) → Total n (column_type t)
  unfolding column_type
  Total-column_type t = search leaf_rules

  Total-parse_column_def : Total n parse_column_def
  unfolding parse_column_def
  Total-parse_column_def = search (rules, Total-column_type) depth 12

  Total-parse_column_name : Total n parse_column_name
  unfolding parse_column_name
  Total-parse_column_name = search rules

  Total-parse_optional_value : Total n parse_optional_value
  unfolding parse_optional_value
  Total-parse_optional_value = search rules depth 9

  Total-parse_assignment : Total n parse_assignment
  unfolding parse_assignment
  Total-parse_assignment = search rules depth 9

  Total-parse_where : Total n parse_where
  unfolding parse_where
  Total-parse_where = search rules depth 9

  Total-parse_alias : Total n parse_alias
  unfolding parse_alias
  Total-parse_alias = search rules depth 9

  Total-parse_aggregate : Total n parse_aggregate
  unfolding parse_aggregate
  Total-parse_aggregate = search (rules, Total-match_only, Total-parse_alias) depth 14

  Total-parse_plain_column : Total n parse_plain_column
  unfolding parse_plain_column
  Total-parse_plain_column = search (rules, Total-parse_alias) depth 14

module _ {n : ℕ} where
  Total-parse_row : Total n parse_row
  unfolding parse_row
  Total-parse_row = search (rules, Total-parse_optional_value) depth 9

  Total-parse_column_list : Total n parse_column_list
  unfolding parse_column_list
  Total-parse_column_list = search (rules, Total-parse_column_name) depth 9

  Total-parse_select_column : Total n parse_select_column
  unfolding parse_select_column
  Total-parse_select_column =
      search (leaf_rules, Total-parse_aggregate, Total-parse_plain_column) depth 9

module _ {n : ℕ} where
  Total-parse_create : Total n parse_create
  unfolding parse_create
  Total-parse_create = search (rules, Total-parse_column_def) depth 14

  Total-parse_drop : Total n parse_drop
  unfolding parse_drop
  Total-parse_drop = search rules depth 14

  Total-parse_use : Total n parse_use
  unfolding parse_use
  Total-parse_use = search rules depth 9

  Total-parse_insert : Total n parse_insert
  unfolding parse_insert
  Total-parse_insert = search (rules, Total-parse_column_list, Total-parse_row) depth 14

  Total-parse_update : Total n parse_update
  unfolding parse_update
  Total-parse_update = search (rules, Total-parse_assignment, Total-parse_where) depth 14

  Total-parse_delete : Total n parse_delete
  unfolding parse_delete
  Total-parse_delete = search (rules, Total-parse_where) depth 14

  Total-parse_select : Total n parse_select
  unfolding parse_select
  Total-parse_select = search (rules, Total-parse_select_column, Total-parse_where) depth 14

module _ {n : ℕ} where
  Total-parse_statement : (t : Token) → Total n (parse_statement t)
  unfolding parse_statement
  Total-parse_statement t =
      search
        (
          leaf_rules, Total-parse_create, Total-parse_drop, Total-parse_use, Total-parse_insert,
          Total-parse_update, Total-parse_delete, Total-parse_select,
        )
        depth 14

parse-Ends : (ts : List Token) → Ends (length ts) (parse ts)
unfolding parse
parse-Ends ts =
    let whole : Total (length ts) (peek >>= parse_statement) =
      Total-bind peek parse_statement Total-peek Total-parse_statement in
    Ends-if (length ts) (is_end ts) (err empty_input) _ empty_input-ne (whole.at ts (omega arith))

-- The parser ends on every list of tokens: it returns a command and the tokens left, no more than
-- it was given, or it throws an error of the program; it never runs out of rounds.
pub parse_total :
    (ts : List Token)
    → ((c : Command) × (rest : List Token) × (parse ts ≡ ok (c, rest)) × (length rest ≤ length ts))
      ⊎ ((e : ParseError) × (parse ts ≡ err e) × (e ≢ out_of_fuel))
parse_total ts = go (parse ts) refl (parse-Ends ts)
  where
    go :
        (r : Result ParseError (Command × List Token))
        → parse ts ≡ r
        → Ends (length ts) r
        → ((c : Command) × (rest : List Token) × (parse ts ≡ ok (c, rest))
            × (length rest ≤ length ts))
          ⊎ ((e : ParseError) × (parse ts ≡ err e) × (e ≢ out_of_fuel))
    go (ok (c, rest)) e h = inl (c, rest, e, h)
    go (err x) e h = inr (x, e, h)
