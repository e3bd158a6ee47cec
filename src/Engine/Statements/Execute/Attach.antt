-- ===== src/Engine/Statements/Execute/Attach.antt =====
-- `Table::attach_index` of storage/src/table.cpp, and `attach_indexes_for_table` of
-- executor/src/query_engine.cpp.
use dbms_project_sp.Base.{
  ℕ, suc, Bool, true, false, List, [], ◌∷◌, Option, none, some, length, get_elem?, if◌then◌else◌,
  ◌==◌, ltb, Result, ok, err,
}
use dbms_project_sp.Base.Action.{Action, pure, ◌>>◌}
use dbms_project_sp.Storage.Datum.{Datum}
use dbms_project_sp.Storage.Schema.{ColumnDef}
use dbms_project_sp.Storage.Table.{Table, IndexOps, Row, RowId, lookup}
use dbms_project_sp.Engine.Errors.{QueryError, index_failed, out_of_bounds, disk_error}

-- `indexes_[column] = index`.
abbrev pub bind_index : {I : Type 0} → ℕ → I → List (ℕ × I) → List (ℕ × I)
bind_index column index [] = (column, index) ∷ []
bind_index column index ((c, i) ∷ bindings) =
    if c == column then (c, index) ∷ bindings else (c, i) ∷ bind_index column index bindings

abbrev pub stored_cell : Option Row → ℕ → Option (Datum)
stored_cell none column = none
stored_cell (some row) column = get_elem? row column

module _ {I E : Type 0} (ops : IndexOps I E) where
  -- Each row's cell goes into the index, in the order of the rows, up to the first exception.
  unfoldable pub rebuild :
      ℕ → List RowId → List (RowId × Row) → I → I × Result (QueryError E) (Unit {0})
  rebuild column [] rows index = (index, ok tt)
  rebuild column (id ∷ ids) rows index = elim (stored_cell (lookup id rows) column) [
    | none ↦ (index, err out_of_bounds)
    | some v ↦
        let (index', outcome) = ops.insert v id index in
        elim outcome [
          | err e ↦ (index', err (index_failed e))
          | ok u ↦ rebuild column ids rows index'
        ]
  ]

  -- The index is bound before the rows go into it.
  unfoldable pub attach_index : ℕ → I → Table I → Table I × Result (QueryError E) (Unit {0})
  attach_index column index t =
      if ltb column (length t.schema.columns)
      then (let (index', outcome) = rebuild column t.order t.rows index in
          (record t { indexes = bind_index column index' t.indexes }, outcome))
      else (t, err out_of_bounds)

  module _ {D : Type 0} (make_index : ColumnDef → D → D × Result E I) where
    abbrev pub attach_made :
        ℕ → D × Result E I → Table I → (Table I × D) × Result (QueryError E) (Unit {0})
    attach_made column (disk, err e) t = ((t, disk), err (disk_error e))
    attach_made column (disk, ok index) t =
        let (t', outcome) = attach_index column index t in ((t', disk), outcome)

    abbrev pub has_index : Option I → Bool
    has_index none = false
    has_index (some index) = true

    unfoldable pub attach_column : ColumnDef → ℕ → Action (Table I × D) (QueryError E) (Unit {0})
    attach_column col i (t, disk) =
        if col.indexed
        then (if has_index (lookup i t.indexes)
            then ((t, disk), ok tt)
            else attach_made i (make_index col disk) t)
        else ((t, disk), ok tt)

    unfoldable pub attach_indexes :
        List ColumnDef → ℕ → Action (Table I × D) (QueryError E) (Unit {0})
    attach_indexes [] i = pure tt
    attach_indexes (col ∷ cols) i = do attach_column col i; attach_indexes cols (suc i)
