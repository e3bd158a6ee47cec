-- ===== src/Engine/Json.antt =====
-- The JSON text of the rows that SELECT prints, executor/src/query_engine.cpp.
pub mod Read
use dbms_project_sp.Base.{
  ℕ, zero, suc, ◌+◌, ◌/◌, ◌%◌, Bool, List, [], ◌∷◌, ◌++◌, Option, none, some, get_elem?,
  if◌then◌else◌, ◌==◌, ltb, Bytes, bytes_eq, codes, Result, ok, err, ◌>>=◌,
}
use dbms_project_sp.Base.Number.{to_string}
use dbms_project_sp.Sql.Ast.{SelectColumn}
use dbms_project_sp.Storage.Datum.{Datum}
use dbms_project_sp.Storage.Schema.{ColumnDef, TableSchema, find_index}
use dbms_project_sp.Storage.Table.{Row}
use dbms_project_sp.Storage.Table.Materialize.{unknown_column}
use dbms_project_sp.Engine.Errors.{QueryError, column_error, out_of_bounds}

unfoldable pub escape_char : ℕ → Bytes
escape_char c =
    if c == b'"'
    then codes "\\\""
    else if c == b'\\'
    then codes "\\\\"
    else if c == b'\n'
    then codes "\\n"
    else if c == b'\r'
    then codes "\\r"
    else if c == b'\t'
    then codes "\\t"
    else c ∷ []

unfoldable pub escape_json : Bytes → Bytes
escape_json [] = []
escape_json (c ∷ s) = escape_char c ++ escape_json s

abbrev pub quoted : Bytes → Bytes
quoted s = b'"' ∷ (escape_json s ++ b'"' ∷ [])

unfoldable pub value_to_json : Datum → Bytes
value_to_json Datum.null = codes "null"
value_to_json (Datum.int n) = to_string n
value_to_json (Datum.str s) = quoted s

-- A comma between two members.
abbrev pub separated : Bytes → Bytes → Bytes
separated first [] = first
separated first (c ∷ rest) = first ++ b',' ∷ c ∷ rest

abbrev member : Bytes → Datum → Bytes
member key v = quoted key ++ b':' ∷ value_to_json v

abbrev key_of : SelectColumn → Bytes
key_of col = if bytes_eq col.alias [] then col.name else col.alias

module _ {E : Type 0} where
  -- Each row has a cell in every column of its table.
  abbrev cell_at : Option Datum → Result (QueryError E) Datum
  cell_at none = err out_of_bounds
  cell_at (some v) = ok v

  unfoldable pub all_members : List ColumnDef → Row → ℕ → Result (QueryError E) Bytes
  all_members [] row i = ok []
  all_members (col ∷ cols) row i = cell_at (get_elem? row i) >>= λ v.
      all_members cols row (suc i) >>= λ rest. ok (separated (member col.name v) rest)

  abbrev column_cell : Option ℕ → Row → Result (QueryError E) Datum
  column_cell none row = err (column_error unknown_column)
  column_cell (some i) row = cell_at (get_elem? row i)

  unfoldable pub chosen_members :
      List SelectColumn → TableSchema → Row → Result (QueryError E) Bytes
  chosen_members [] s row = ok []
  chosen_members (col ∷ cols) s row = column_cell (find_index col.name s) row >>= λ v.
      chosen_members cols s row >>= λ rest. ok (separated (member (key_of col) v) rest)

  unfoldable pub row_to_json_object :
      Bool → List SelectColumn → TableSchema → Row → Result (QueryError E) Bytes
  row_to_json_object star columns s row =
      (if star then all_members s.columns row 0 else chosen_members columns s row) >>= λ members.
      ok (b'{' ∷ (members ++ b'}' ∷ []))
