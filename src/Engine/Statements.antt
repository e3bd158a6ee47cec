-- ===== src/Engine/Statements.antt =====
-- The statements that read and change one table, executor/src/query_engine.cpp: what each does from
-- the table that it names.
pub mod Execute
pub mod Tables
pub mod Found
use dbms_project_sp.Base.{
  ℕ, Bool, true, false, List, [], ◌∷◌, ◌++◌, map, Option, none, some, Bytes, Result, ok, err,
}
use dbms_project_sp.Base.Int.{ℤ, pos, negsuc}
use dbms_project_sp.Base.Action.{Action, pure, raise, gets, from_result, for_each, ◌>>=◌, ◌>>◌}
use dbms_project_sp.Sql.Ast.{
  SqlValue, ColumnType, Modifier, Assignment, SelectColumn, Condition, not_null, indexed,
}
use dbms_project_sp.Sql.Ast
use dbms_project_sp.Storage.Datum.{Datum, DataType}
use dbms_project_sp.Storage.Schema.{ColumnDef, TableSchema, SchemaError, set_columns}
use dbms_project_sp.Storage.Table.{Table, IndexOps, Row, RowId, TableError, lookup}
use dbms_project_sp.Storage.Table.Operations.{insert, insert_row, update, erase}
use dbms_project_sp.Storage.Table.Materialize.{MaterializeError, require_column, materialize}
use dbms_project_sp.Engine.Errors.{
  QueryError, column_error, schema_error, table_error, out_of_bounds,
}
use dbms_project_sp.Engine.Comparison.{Regex}
use dbms_project_sp.Engine.Candidates.{collect_candidate_rows, row_matches, matching_rows}
use dbms_project_sp.Engine.Json.{row_to_json_object, separated}

unfoldable pub parser_value_to_storage : SqlValue → Datum
parser_value_to_storage SqlValue.monostate = Datum.null
parser_value_to_storage (SqlValue.int n) = Datum.int n
parser_value_to_storage (SqlValue.str s) = Datum.str s

unfoldable pub parser_type_to_storage : ColumnType → DataType
parser_type_to_storage ColumnType.int = DataType.int
parser_type_to_storage ColumnType.string = DataType.str

abbrev is_indexed : Modifier → Bool
is_indexed indexed = true
is_indexed _ = false

abbrev is_not_null : Modifier → Bool
is_not_null Modifier.none = false
is_not_null _ = true

unfoldable pub stored_value : Option SqlValue → Option Datum
stored_value none = none
stored_value (some v) = some (parser_value_to_storage v)

unfoldable pub column_to_storage : Ast.ColumnDef → ColumnDef
column_to_storage c = record {
  name = c.name;
  type = parser_type_to_storage c.type;
  not_null = is_not_null c.modifier;
  indexed = is_indexed c.modifier;
  default_value = stored_value c.default_value;
}

unfoldable pub build_schema : List Ast.ColumnDef → Result SchemaError TableSchema
build_schema columns = set_columns (map column_to_storage columns)

-- DEFAULT in a list of values of named columns stands for NULL.
abbrev value_or_null : Option SqlValue → Datum
value_or_null none = Datum.null
value_or_null (some v) = parser_value_to_storage v

abbrev pub TableAction : Type 0 → Type 0 → Type 0 → Type 0
TableAction I E A = Action (Table I) (QueryError E) A

abbrev pub lift_column : {E A : Type 0} → Result MaterializeError A → Result (QueryError E) A
lift_column (ok a) = ok a
lift_column (err e) = err (column_error e)

abbrev lift_outcome : {E A : Type 0} → Result (TableError E) A → Result (QueryError E) A
lift_outcome (ok a) = ok a
lift_outcome (err e) = err (table_error e)

abbrev pub call :
    {I E A : Type 0} → (Table I → Table I × Result (TableError E) A) → TableAction I E A
call operation t = let (t', outcome) = operation t in (t', lift_outcome outcome)

module _ {I E : Type 0} where
  unfoldable pub column_positions : List Bytes → Table I → Result (QueryError E) (List ℤ)
  column_positions [] t = ok []
  column_positions (name ∷ names) t = elim (require_column name t.schema) [
    | err e ↦ err (column_error e)
    | ok position ↦ elim (column_positions names t) [
      | err e ↦ err e
      | ok positions ↦ ok (position ∷ positions)
    ]
  ]

  -- The state is read by what may throw.
  abbrev pub reads : {A : Type 0} → (Table I → Result (QueryError E) A) → TableAction I E A
  reads f t = (t, f t)

module _ {I E : Type 0} (ops : IndexOps I E) where
  -- One round of the loop over the rows; with no names the values stand for all columns.
  unfoldable pub insert_values :
      List Bytes → List ℤ → List (Option SqlValue) → TableAction I E (Unit {0})
  insert_values [] positions values = call (insert_row ops (map stored_value values))
  insert_values (c ∷ names) positions values = do
    row ← reads (λ t. lift_column (materialize positions (map value_or_null values) t.schema))
    id ← call (insert ops row)
    pure tt

  unfoldable pub insert_all :
      List Bytes → List (List (Option SqlValue)) → TableAction I E (Unit {0})
  insert_all names rows = do
    positions ← reads (column_positions names)
    for_each (insert_values names positions) rows

  abbrev pub assign_at : RowId → ℤ → Datum → TableAction I E (Unit {0})
  assign_at id (pos column) v = call (update ops id column v)
  assign_at id (negsuc n) v = raise out_of_bounds

  unfoldable pub assign_one : RowId → Assignment → TableAction I E (Unit {0})
  assign_one id a = do
    column ← reads (λ t. lift_column (require_column a.column t.schema))
    assign_at id column (parser_value_to_storage a.value)

  abbrev pub assign_if : Bool → RowId → List Assignment → TableAction I E (Unit {0})
  assign_if true id assignments = for_each (assign_one id) assignments
  assign_if false id assignments = pure tt

  module _ (regex : Regex) where
    -- The condition on a row that is there; a row that is not is passed over.
    abbrev pub row_taken : Option Condition → RowId → Table I → Result (QueryError E) Bool
    row_taken where_ id t = elim (lookup id t.rows) [
      | none ↦ ok false
      | some row ↦ row_matches regex where_ t.schema row
    ]

    -- A row is tested as the updates of the rows before it have left it.
    unfoldable pub update_row_if :
        List Assignment → Option Condition → RowId → TableAction I E (Unit {0})
    update_row_if assignments where_ id = do
      taken ← reads (row_taken where_ id)
      assign_if taken id assignments

    unfoldable pub update_all : List Assignment → Option Condition → TableAction I E (Unit {0})
    update_all assignments where_ = do
      candidates ← reads (collect_candidate_rows ops where_)
      for_each (update_row_if assignments where_) candidates.0

    unfoldable pub delete_all : Option Condition → TableAction I E (Unit {0})
    delete_all where_ = do
      candidates ← reads (collect_candidate_rows ops where_)
      found ← reads (λ t. matching_rows regex where_ t candidates.0)
      for_each (λ id. call (erase ops id)) found

    abbrev printed_if :
        Bool
        → Result (QueryError E) Bytes
        → Result (QueryError E) Bytes
        → Result (QueryError E) Bytes
    printed_if false object rest = rest
    printed_if true (err e) rest = err e
    printed_if true (ok object) (err e) = err e
    printed_if true (ok object) (ok rest) = ok (separated object rest)

    -- The loop of SELECT; it ends at the first exception.
    unfoldable pub print_rows :
        Bool
        → List SelectColumn
        → Option Condition
        → Table I
        → List RowId
        → Result (QueryError E) Bytes
    print_rows star columns where_ t [] = ok []
    print_rows star columns where_ t (id ∷ ids) =
        let rest = print_rows star columns where_ t ids in
        elim (lookup id t.rows) [
          | none ↦ rest
          | some row ↦ elim (row_matches regex where_ t.schema row) [
            | err e ↦ err e
            | ok taken ↦ printed_if taken (row_to_json_object star columns t.schema row) rest
          ]
        ]

    -- The text, and whether an index gave the rows.
    unfoldable pub select_text :
        Bool
        → List SelectColumn
        → Option Condition
        → Table I
        → Result (QueryError E) Bytes × Option Bool
    select_text star columns where_ t = elim (collect_candidate_rows ops where_ t) [
      | err e ↦ (err e, none)
      | ok candidates ↦ (
        elim (print_rows star columns where_ t candidates.0) [
          | err e ↦ err e
          | ok objects ↦ ok (b'[' ∷ (objects ++ b']' ∷ []))
        ],
        some candidates.1,
      )
    ]
