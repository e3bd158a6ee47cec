-- ===== src/Storage/Table/Operations.antt =====
-- `insert`, `update`, `erase`, `insert_row` and `materialize` of storage/src/table.cpp.
use dbms_project_sp.Base.{
  ℕ, suc, ◌+◌, ◌%◌, ◌^◌, List, [], ◌∷◌, ◌++◌, Option, none, some, length, get_elem?, set,
  if◌then◌else◌, ltb, Result, ok, err, ◌>>=◌,
}
use dbms_project_sp.Storage.Datum.{Datum, null}
use dbms_project_sp.Storage.Schema.{ColumnDef}
use dbms_project_sp.Storage.Table.{
  Table, IndexOps, Row, RowId, TableError, refused, row_not_found, column_out_of_range,
  too_many_values, missing_value, index_error, lookup, remove, assign, emplace, remove_first,
  validate, notify_insert, notify_erase, notify_update,
}

abbrev pub lift_index : {E A : Type 0} → A → Result E (Unit {0}) → Result (TableError E) A
lift_index a (ok u) = ok a
lift_index a (err e) = err (index_error e)

module _ {E : Type 0} where
  -- One round of the loop of `insert_row`.
  abbrev pub fill : ColumnDef → Option (Option Datum) → Result (TableError E) Datum
  fill col (some (some v)) = ok v
  fill col _ = elim col.default_value [
    | some d ↦ ok d
    | none ↦ if col.not_null then err (refused missing_value) else ok null
  ]

  unfoldable pub fill_from : List ColumnDef → List (Option Datum) → ℕ → Result (TableError E) Row
  fill_from [] values i = ok []
  fill_from (col ∷ cols) values i =
      fill col (get_elem? values i) >>= λ v. fill_from cols values (suc i) >>= λ row. ok (v ∷ row)

module _ {I E : Type 0} (ops : IndexOps I E) where
  unfoldable pub insert : Row → Table I → Table I × Result (TableError E) RowId
  insert row t = elim (validate ops row none t) [
    | err e ↦ (t, err e)
    | ok u ↦
        let id = t.next_id in
        let (indexes, outcome) = notify_insert ops id row t.indexes in
        (
          record {
            schema = t.schema;
            rows = emplace id row t.rows;
            order = t.order ++ id ∷ [];
            indexes = indexes;
            next_id = (id + 1) % 2 ^ 64;
          },
          lift_index id outcome,
        )
  ]

  -- The row is written after the index took the new key.
  abbrev pub write_row :
      RowId
      → Row
      → List (ℕ × I)
      → Result E (Unit {0})
      → Table I
      → Table I × Result (TableError E) (Unit {0})
  write_row id row indexes (err e) t = (record t { indexes = indexes }, err (index_error e))
  write_row id row indexes (ok u) t =
      (record t { indexes = indexes; rows = assign id row t.rows }, ok tt)

  abbrev pub update_row :
      RowId → ℕ → Datum → Datum → Row → Table I → Table I × Result (TableError E) (Unit {0})
  update_row id column old new row t = elim (validate ops row (some id) t) [
    | err e ↦ (t, err e)
    | ok u ↦
        let (indexes, outcome) = notify_update ops id column old new t.indexes in
        write_row id row indexes outcome t
  ]

  unfoldable pub update : RowId → ℕ → Datum → Table I → Table I × Result (TableError E) (Unit {0})
  update id column new t = elim (lookup id t.rows) [
    | none ↦ (t, err (refused row_not_found))
    | some row ↦
        if ltb column (length t.schema.columns)
        then elim (get_elem? row column) [
          | none ↦ (t, err (refused column_out_of_range))
          | some old ↦ update_row id column old new (set row column new) t
        ]
        else (t, err (refused column_out_of_range))
  ]

  abbrev pub drop_row :
      RowId
      → List (ℕ × I)
      → Result E (Unit {0})
      → Table I
      → Table I × Result (TableError E) (Unit {0})
  drop_row id indexes (err e) t = (record t { indexes = indexes }, err (index_error e))
  drop_row id indexes (ok u) t = (
    record t { indexes = indexes; rows = remove id t.rows; order = remove_first id t.order },
    ok tt,
  )

  unfoldable pub erase : RowId → Table I → Table I × Result (TableError E) (Unit {0})
  erase id t = elim (lookup id t.rows) [
    | none ↦ (t, err (refused row_not_found))
    | some row ↦
        let (indexes, outcome) = notify_erase ops row t.indexes in drop_row id indexes outcome t
  ]

  unfoldable pub insert_row :
      List (Option Datum) → Table I → Table I × Result (TableError E) (Unit {0})
  insert_row values t =
      if ltb (length t.schema.columns) (length values)
      then (t, err (refused too_many_values))
      else elim (fill_from {E = E} t.schema.columns values 0) [
        | err e ↦ (t, err e)
        | ok row ↦ let (t', outcome) = insert row t in (t', outcome >>= λ id. ok tt)
      ]
