-- ===== src/Engine/Candidates.antt =====
-- `collect_candidate_rows` and the loops over the candidates, executor/src/query_engine.cpp.
pub mod Literal
pub mod Complete
pub mod Selection
pub mod Exact
mod Tests
use dbms_project_sp.Base.{
  ℕ, Bool, true, false, not, ◌&&◌, List, [], ◌∷◌, Option, none, some, get_elem?, if◌then◌else◌,
  Bytes, bytes_eq, codes, Result, ok, err, ◌>>=◌,
}
use dbms_project_sp.Base.Int.{ℤ, pos, negsuc}
use dbms_project_sp.Base.Number.{NumberError, stoll}
use dbms_project_sp.Sql.Ast.{Op, eq, between, Comparison, Condition, Link, node, ref}
use dbms_project_sp.Sql.Ast
use dbms_project_sp.Storage.Datum.{Datum, DataType}
use dbms_project_sp.Storage.Schema.{ColumnDef, TableSchema}
use dbms_project_sp.Storage.Table.{Table, IndexOps, Row, RowId, lookup}
use dbms_project_sp.Storage.Table.Materialize.{MaterializeError, require_column}
use dbms_project_sp.Engine.Errors.{
  QueryError, column_error, number_error, index_failed, out_of_bounds,
}
use dbms_project_sp.Engine.Comparison.{Regex, evaluate_simple_condition}
use dbms_project_sp.Engine.Condition.{evaluate_condition}

abbrev int_key : {E : Type 0} → Result NumberError (ℤ × Bytes) → Result (QueryError E) Datum
int_key (ok (n, rest)) = ok (Datum.int n)
int_key (err e) = err (number_error e)

abbrev typed_key : {E : Type 0} → Bytes → DataType → Result (QueryError E) Datum
typed_key text DataType.int = int_key (stoll text)
typed_key text DataType.str = ok (Datum.str text)

-- What stands behind a number is passed over.
unfoldable pub parse_literal_for_column :
    {E : Type 0} → Bytes → DataType → Result (QueryError E) Datum
parse_literal_for_column text type =
    if bytes_eq text (codes "NULL") then ok Datum.null else typed_key text type

abbrev pub lift_found : {E A : Type 0} → Result E A → Result (QueryError E) A
lift_found (ok a) = ok a
lift_found (err e) = err (index_failed e)

abbrev at_most_one : Option RowId → List RowId
at_most_one none = []
at_most_one (some id) = id ∷ []

-- Row ids, and whether an index gave them.
abbrev pub Candidates : Type 0 → Type 0
Candidates E = Result (QueryError E) (List RowId × Bool)

abbrev pub from_index : {E : Type 0} → List RowId → Candidates E
from_index ids = ok (ids, true)

abbrev pub from_order : {I E : Type 0} → Table I → Candidates E
from_order t = ok (t.order, false)

module _ {I E : Type 0} (ops : IndexOps I E) where
  unfoldable pub key_candidates : Op → Ast.Comparison → DataType → I → Table I → Candidates E
  key_candidates eq c type index t = parse_literal_for_column c.right type >>= λ key.
      lift_found (ops.find key index) >>= λ found. from_index (at_most_one found)
  key_candidates between c type index t = parse_literal_for_column c.right type >>= λ low.
      parse_literal_for_column c.right2 type >>= λ high.
      lift_found (ops.range_search low high index) >>= λ ids. from_index ids
  key_candidates op c type index t = from_order t

  abbrev typed_candidates : Option ColumnDef → Ast.Comparison → I → Table I → Candidates E
  typed_candidates none c index t = err out_of_bounds
  typed_candidates (some def) c index t = key_candidates c.op c def.type index t

  abbrev indexed_candidates : Option I → ℕ → Ast.Comparison → Table I → Candidates E
  indexed_candidates none column c t = from_order t
  indexed_candidates (some index) column c t =
      typed_candidates (get_elem? t.schema.columns column) c index t

  abbrev column_candidates : Result MaterializeError ℤ → Ast.Comparison → Table I → Candidates E
  column_candidates (err e) c t = err (column_error e)
  column_candidates (ok (pos column)) c t = indexed_candidates (lookup column t.indexes) column c t
  column_candidates (ok (negsuc n)) c t = from_order t

  unfoldable pub simple_candidates : Ast.Comparison → Table I → Candidates E
  simple_candidates c t =
      if c.left_is_column && not c.right_is_column
      then column_candidates (require_column c.left t.schema) c t
      else from_order t

  unfoldable pub collect_candidate_rows : Option Condition → Table I → Candidates E
  collect_candidate_rows none t = from_order t
  collect_candidate_rows (some (node c lop Link.null Link.null paren)) t = simple_candidates c t
  collect_candidate_rows (some c) t = from_order t

-- The condition of a statement on a row; a statement with none takes every row.
unfoldable pub row_matches :
    {E : Type 0} → Regex → Option Condition → TableSchema → Row → Result (QueryError E) Bool
row_matches regex none s row = ok true
row_matches regex (some c) s row =
    evaluate_condition (λ x. evaluate_simple_condition regex x s row) c

abbrev pub keep_if : Bool → RowId → List RowId → List RowId
keep_if true id ids = id ∷ ids
keep_if false id ids = ids

-- The candidates that are rows and match; the loop ends at the first exception.
unfoldable pub matching_rows :
    {I E : Type 0}
    → Regex
    → Option Condition
    → Table I
    → List RowId
    → Result (QueryError E) (List RowId)
matching_rows regex where_ t [] = ok []
matching_rows regex where_ t (id ∷ ids) =
    let rest = matching_rows regex where_ t ids in
    elim (lookup id t.rows) [
      | none ↦ rest
      | some row ↦
          row_matches regex where_ t.schema row >>= λ b. rest >>= λ found. ok (keep_if b id found)
    ]
