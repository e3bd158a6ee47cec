-- ===== src/Storage/Table/Insertion.antt =====
-- What `insert` leaves, on each way it can end.
use dbms_project_sp.Base.{
  ℕ, ◌+◌, ◌%◌, ◌^◌, ◌≡◌, List, [], ◌∷◌, ◌++◌, some, if◌then◌else◌, ◌==◌, Result, ok, err,
}
use dbms_project_sp.Storage.Datum.{Datum}
use dbms_project_sp.Storage.Table.{Table, Row, RowId, TableError, index_error, lookup, emplace}
use dbms_project_sp.Storage.Table.Rows.{RowFits}

-- The row is stored under the next id, fits the schema and comes last, and no other row changed.
abbrev pub Stored : {I : Type 0} → Row → Table I → Table I → Type 0
Stored row t t' =
    ((j : RowId) → lookup j t'.rows ≡ (if t.next_id == j then some row else lookup j t.rows))
    × (t'.order ≡ t.order ++ t.next_id ∷ [])
    × RowFits t.schema.columns row

abbrev pub InsertEnds :
    {I E : Type 0} → Row → Table I → Table I × Result (TableError E) RowId → Type 0
InsertEnds row t (t', ok id) = (id ≡ t.next_id) × Stored row t t'
InsertEnds row t (t', err (index_error e)) = Stored row t t'
InsertEnds row t (t', err _) = t' ≡ t

-- An outcome that is no exception of an index.
abbrev Plain : {E A : Type 0} → Result (TableError E) A → Type 0
Plain (err (index_error e)) = ⊥
Plain _ = Unit

module _ {I : Type 0} (row : Row) (t : Table I) where
  abbrev inserted : List (ℕ × I) → Table I
  inserted indexes = record t {
    rows = emplace t.next_id row t.rows;
    order = t.order ++ t.next_id ∷ [];
    indexes = indexes;
    next_id = (t.next_id + 1) % 2 ^ 64;
  }
