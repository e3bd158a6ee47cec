-- ===== src/Index/Adapter/Again.antt =====
-- An index file that holds the keys of a table, attached to the table, as the constructor of
-- `DbmsQueryEngine` does with the files that it finds.
use dbms_project_sp.Base.{
  ℕ, ◌<◌, ◌≡◌, refl, ap, ◌∙◌, true, List, ◌∷◌, some, length, ltb, get_elem?, arith, err, inl, inr,
}
use dbms_project_sp.Storage.Datum.{Datum}
use dbms_project_sp.Storage.Table.{Table, Row, RowId, lookup}
use dbms_project_sp.Engine.Errors.{index_failed}
use dbms_project_sp.Engine.Statements.Execute.Attach.{
  bind_index, stored_cell, rebuild, attach_index,
}
use dbms_project_sp.Index.Scalar.{invalid_argument}
use dbms_project_sp.Index.Entries.{Entries, find_entry}
use dbms_project_sp.Index.Tree.{BStarPlusIndex}
use dbms_project_sp.Index.Tree.Shape.{IsIndex}
use dbms_project_sp.Index.Tree.Searches.{insert-again}
use dbms_project_sp.Index.Adapter.{bstarplus_adapter}
use dbms_project_sp.Index.Adapter.Agrees.{Holds}

refused :
    (index : BStarPlusIndex) (es : Entries) (x : Datum) (id held : RowId)
    → IsIndex index es
    → Holds index es x held
    → bstarplus_adapter.insert x id index ≡ (index, err invalid_argument)
unfolding bstarplus_adapter
refused index es x id held (inl tree) h =
    rw h.of_cell (insert-again index es tree h.key id held h.of_kind h.there)
refused index es x id held (inr (empty, none_there)) h =
    absurd (ground (arith, ap (find_entry h.key) none_there, h.there))

rebuild_refused :
    (column : ℕ) (index : BStarPlusIndex) (es : Entries) (rows : List (RowId × Row))
    (id held : RowId) (ids : List RowId) (row : Row) (x : Datum)
    → lookup id rows ≡ some row
    → get_elem? row column ≡ some x
    → IsIndex index es
    → Holds index es x held
    → rebuild bstarplus_adapter column (id ∷ ids) rows index
      ≡ (index, err (index_failed invalid_argument))
unfolding rebuild
rebuild_refused column index es rows id held ids row x at is_cell whole h =
    let cell : stored_cell (lookup id rows) column ≡ some x =
      ap (λ r. stored_cell r column) at ∙ is_cell in
    let same = refused index es x id held whole h in
    rw (cell, ap (λ r. r.1) same, rebuild)
      (ap (λ r. (r.0, err (index_failed invalid_argument))) same)

-- Where an index in pages already holds the cell of the first row of a table, as a file does that was
-- written before the program was started, attaching it to the table throws: the first row is refused
-- as a duplicate. The index is bound to its column with what was in it, and none of the cells of the
-- other rows is looked at.
pub attach_index-again :
    (column : ℕ) (index : BStarPlusIndex) (es : Entries) (t : Table BStarPlusIndex)
    (id held : RowId) (ids : List RowId) (row : Row) (x : Datum)
    → column < length t.schema.columns
    → t.order ≡ id ∷ ids
    → lookup id t.rows ≡ some row
    → get_elem? row column ≡ some x
    → IsIndex index es
    → Holds index es x held
    → attach_index bstarplus_adapter column index t ≡ (
      record t { indexes = bind_index column index t.indexes },
      err (index_failed invalid_argument),
    )
unfolding attach_index
attach_index-again column index es t id held ids row x l first at is_cell whole h =
    let in_range : ltb column (length t.schema.columns) ≡ true = ground (arith, l) in
    rw
      (in_range, first, rebuild_refused column index es t.rows id held ids row x at is_cell whole h)
      refl
