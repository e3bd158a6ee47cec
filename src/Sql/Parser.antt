-- ===== src/Sql/Parser.antt =====
-- The statements of server/parser/src/parser.cpp.
pub mod Total
pub mod Loops
pub mod Ending
use dbms_project_sp.Base.{
  ℕ, zero, suc, Bool, true, false, ◌&&◌, ◌||◌, List, [], ◌∷◌, length, map, Option, none, some,
  if◌then◌else◌, err, Bytes, codes, bytes_eq, to_upper,
}
use dbms_project_sp.Sql.Token.{
  TokenType, Token, same, kw_select, kw_from, kw_where, kw_as, kw_insert, kw_into, kw_value,
  kw_update, kw_set, kw_delete, kw_create, kw_drop, kw_use, kw_database, kw_table, kw_not_null,
  kw_indexed, kw_default, kw_null, kw_sum, kw_count, kw_avg, identifier, op_assign, comma, lparen,
  rparen, star, backtick,
}
use dbms_project_sp.Sql.Ast.{
  SqlValue, Condition, AggregateFunc, sum, count, avg, ColumnType, Modifier, not_null, indexed,
  ColumnDef, Assignment, SelectColumn, TableRef, Command, create_database, drop_database,
  use_database, create_table, drop_table, insert, update, delete, select,
}
use dbms_project_sp.Sql.Cursor.{
  Parse, ParseError, empty_input, unexpected_token, expected_database_or_table, unknown_type,
  out_of_fuel, pure, throw, ◌>>=◌, ◌>>◌, is_end, peek, advance, check, checks, match, expect,
  parse_table_ref, parse_value, comma_separated,
}
use dbms_project_sp.Sql.Conditions.{parse_condition}

-- The type of a column, by its name in any case of the letters.
unfoldable pub column_type : Token → Parse ColumnType
unfolding bytes_eq to_upper
column_type t =
    let type_str = map to_upper t.value in
    if bytes_eq type_str (codes "INT") || bytes_eq type_str (codes "INTEGER")
    then pure ColumnType.int
    else if bytes_eq type_str (codes "STR")
        || bytes_eq type_str (codes "STRING")
        || bytes_eq type_str (codes "TEXT")
    then pure ColumnType.string
    else throw (unknown_type t)

-- `hasNotNull`, `hasIndexed` and `col.defaultValue`.
pub record Modifiers : Type 0 where
  pub has_not_null : Bool
  pub has_indexed : Bool
  pub default_value : Option SqlValue

-- The loop over the modifiers of a column; a round that goes on consumes a token.
unfoldable pub modifiers : ℕ → Modifiers → Parse Modifiers
unfolding checks advance parse_value
modifiers zero m = throw out_of_fuel
modifiers (suc fuel) m = do
  at_not_null ← checks kw_not_null
  at_indexed ← checks kw_indexed
  at_default ← checks kw_default
  at_null ← checks kw_null
  if at_not_null
      then (do advance; modifiers fuel (record m { has_not_null = true }))
      else if at_indexed
      then (do advance; modifiers fuel (record m { has_indexed = true }))
      else if at_default
      then (do advance; v ← parse_value; modifiers fuel (record m { default_value = some v }))
      else if at_null
      then (do advance; modifiers fuel m)
      else pure m

-- `INDEXED` wins over `NOT_NULL`.
unfoldable pub modifier_of : Modifiers → Modifier
modifier_of m =
    if m.has_not_null && m.has_indexed
    then indexed
    else if m.has_not_null
    then not_null
    else if m.has_indexed
    then indexed
    else Modifier.none

abbrev no_modifiers : Modifiers
no_modifiers = record { has_not_null = false; has_indexed = false; default_value = none }

unfoldable pub all_modifiers : Parse Modifiers
unfolding modifiers
all_modifiers ts = modifiers (suc (length ts)) no_modifiers ts

unfoldable pub parse_column_def : Parse ColumnDef
unfolding expect column_type all_modifiers modifier_of
parse_column_def = do
  col_name ← expect identifier "column name"
  type_token ← expect identifier "column type"
  type ← column_type type_token
  m ← all_modifiers
  pure (record {
    name = col_name.value;
    type = type;
    modifier = modifier_of m;
    default_value = m.default_value;
  })

unfoldable pub parse_create : Parse Command
unfolding expect match parse_table_ref comma_separated parse_column_def peek
parse_create = do
  expect kw_create "CREATE"
  is_database ← match kw_database
  if is_database
      then (do name ← expect identifier "database name"; pure (create_database name.value))
      else (do
        is_table ← match kw_table
        if is_table
            then (do
              table ← parse_table_ref
              expect lparen "'('"
              columns ← comma_separated parse_column_def
              expect rparen "')'"
              pure (create_table table columns))
            else (do current ← peek; throw (expected_database_or_table current)))

unfoldable pub parse_drop : Parse Command
unfolding expect match parse_table_ref peek
parse_drop = do
  expect kw_drop "DROP"
  is_database ← match kw_database
  if is_database
      then (do name ← expect identifier "database name"; pure (drop_database name.value))
      else (do
        is_table ← match kw_table
        if is_table
            then (do table ← parse_table_ref; pure (drop_table table))
            else (do current ← peek; throw (expected_database_or_table current)))

unfoldable pub parse_use : Parse Command
unfolding expect
parse_use = do
  expect kw_use "USE"
  name ← expect identifier "database name"
  pure (use_database name.value)

unfoldable pub parse_column_name : Parse Bytes
unfolding expect
parse_column_name = do col ← expect identifier "column name"; pure col.value

-- One place of a row of values: nothing before a comma or the closing parenthesis.
unfoldable pub parse_optional_value : Parse (Option SqlValue)
unfolding checks parse_value
parse_optional_value = do
  at_comma ← checks comma
  at_rparen ← checks rparen
  if at_comma || at_rparen then pure none else (do v ← parse_value; pure (some v))

unfoldable pub parse_row : Parse (List (Option SqlValue))
unfolding expect comma_separated parse_optional_value
parse_row = do
  expect lparen "'('"
  row ← comma_separated parse_optional_value
  expect rparen "')'"
  pure row

unfoldable pub parse_column_list : Parse (List Bytes)
unfolding match expect comma_separated parse_column_name
parse_column_list = do
  has_columns ← match lparen
  if has_columns
      then (do columns ← comma_separated parse_column_name; expect rparen "')'"; pure columns)
      else pure []

unfoldable pub parse_insert : Parse Command
unfolding expect parse_table_ref parse_column_list comma_separated parse_row
parse_insert = do
  expect kw_insert "INSERT"
  expect kw_into "INTO"
  table ← parse_table_ref
  columns ← parse_column_list
  expect kw_value "VALUE or VALUES"
  rows ← comma_separated parse_row
  pure (insert table columns rows)

unfoldable pub parse_assignment : Parse Assignment
unfolding expect parse_value
parse_assignment = do
  col ← expect identifier "column name"
  expect op_assign "'='"
  value ← parse_value
  pure (record { column = col.value; value = value })

unfoldable pub parse_where : Parse (Option Condition)
unfolding match parse_condition
parse_where = do
  has_where ← match kw_where
  if has_where then (do c ← parse_condition; pure (some c)) else pure none

unfoldable pub parse_update : Parse Command
unfolding expect parse_table_ref comma_separated parse_assignment parse_where
parse_update = do
  expect kw_update "UPDATE"
  table ← parse_table_ref
  expect kw_set "SET"
  assignments ← comma_separated parse_assignment
  condition ← parse_where
  pure (update table assignments condition)

unfoldable pub parse_delete : Parse Command
unfolding expect parse_table_ref parse_where
parse_delete = do
  expect kw_delete "DELETE"
  expect kw_from "FROM"
  table ← parse_table_ref
  condition ← parse_where
  pure (delete table condition)

unfoldable pub aggregate_of : TokenType → AggregateFunc
unfolding same
aggregate_of kind =
    if same kind kw_count
    then count
    else if same kind kw_sum
    then sum
    else if same kind kw_avg
    then avg
    else AggregateFunc.none

abbrev is_count : AggregateFunc → Bool
is_count count = true
is_count _ = false

unfoldable pub parse_alias : Parse Bytes
unfolding match expect
parse_alias = do
  has_alias ← match kw_as
  if has_alias then (do alias ← expect identifier "alias name"; pure alias.value) else pure []

-- `COUNT(*)`, or an aggregate of a column.
unfoldable pub parse_aggregate : Parse SelectColumn
unfolding peek advance expect match aggregate_of parse_alias
parse_aggregate = do
  token ← peek
  advance
  let func = aggregate_of token.kind
  expect lparen "'('"
  all ← (if is_count func then match star else pure false)
  name ← (if all then pure (codes "*") else (do t ← expect identifier "column name"; pure t.value))
  expect rparen "')'"
  alias ← parse_alias
  pure (record { name = name; alias = alias; aggregate_func = func })

unfoldable pub parse_plain_column : Parse SelectColumn
unfolding match advance expect parse_alias
parse_plain_column = do
  quoted ← match backtick
  name ←
      (if quoted
        then (do token ← advance; expect backtick "closing backtick"; pure token.value)
        else (do token ← expect identifier "column name"; pure token.value))
  alias ← parse_alias
  pure (record { name = name; alias = alias; aggregate_func = AggregateFunc.none })

unfoldable pub parse_select_column : Parse SelectColumn
unfolding checks parse_aggregate parse_plain_column
parse_select_column = do
  at_count ← checks kw_count
  at_sum ← checks kw_sum
  at_avg ← checks kw_avg
  if at_count || at_sum || at_avg then parse_aggregate else parse_plain_column

unfoldable pub parse_select : Parse Command
unfolding expect match comma_separated parse_select_column parse_table_ref parse_where
parse_select = do
  expect kw_select "SELECT"
  all ← match star
  columns ← (if all then pure [] else comma_separated parse_select_column)
  expect kw_from "FROM"
  table ← parse_table_ref
  condition ← parse_where
  pure (select table all columns condition)

-- The `switch` of `parse` on the first token.
unfoldable pub parse_statement : Token → Parse Command
unfolding same parse_create parse_drop parse_use parse_insert parse_update parse_delete parse_select
parse_statement token =
    if same token.kind kw_create
    then parse_create
    else if same token.kind kw_drop
    then parse_drop
    else if same token.kind kw_use
    then parse_use
    else if same token.kind kw_insert
    then parse_insert
    else if same token.kind kw_update
    then parse_update
    else if same token.kind kw_delete
    then parse_delete
    else if same token.kind kw_select
    then parse_select
    else throw (unexpected_token token)

-- `parse`; the tokens behind the statement are left alone.
unfoldable pub parse : Parse Command
unfolding is_end peek parse_statement
parse ts = if is_end ts then err empty_input else (peek >>= parse_statement) ts
