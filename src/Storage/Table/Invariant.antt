-- ===== src/Storage/Table/Invariant.antt =====
-- Whatever an index does, and also where a call throws, the operations leave a well-formed table.
use dbms_project_sp.Base.{
  ℕ, suc, ◌+◌, ◌%◌, ◌^◌, ◌<◌, ◌≡◌, refl, sym, ◌∙◌, ap, subst, true, List, [], ◌∷◌, ◌++◌, Option,
  none, some, length, get_elem?, set, ◌==◌, ==_iff, ltb, arith, All-append, inl, inr, Option-cases,
  Bool-cases, Result-cases, >>-ok, guard-ok, Result, ok, err, guard,
}
use dbms_project_sp.Storage.Datum.{Datum}
use dbms_project_sp.Storage.Schema.{ColumnDef, TableSchema}
use dbms_project_sp.Storage.Table.{
  Table, IndexOps, Row, RowId, TableError, arity_mismatch, lookup, emplace, remove_first, validate,
  validate_cell, validate_from, notify_insert, notify_update,
}
use dbms_project_sp.Storage.Table.Operations.{
  insert, update, update_row, write_row, erase, drop_row, insert_row, fill_from,
}
use dbms_project_sp.Storage.Table.Rows.{
  fits, RowFits, keys, AllFit, Below, IsTable, keys-append, lookup-new, Below-mono,
  Ascending-append, All-remove_first, Ascending-remove_first, keys-remove, keys-assign,
  AllFit-remove, AllFit-assign,
}

-- There is room for one more id in `uint64_t`.
abbrev pub HasId : {I : Type 0} → Table I → Type 0
HasId t = suc t.next_id < 2 ^ 64

module _ {I E : Type 0} (ops : IndexOps I E) where
  validate_cell-fits :
      (col : ColumnDef) (v : Datum) (i : ℕ) (existing : Option RowId) (t : Table I)
      → validate_cell ops col v i existing t ≡ ok tt
      → fits col v ≡ true
  unfolding validate_cell
  validate_cell-fits col v i existing t h = ground arith

  validate_from-RowFits :
      (cols : List ColumnDef) (row : Row) (i : ℕ) (existing : Option RowId) (t : Table I)
      → length row ≡ length cols
      → validate_from ops cols row i existing t ≡ ok tt
      → RowFits cols row
  unfolding validate_from
  validate_from-RowFits [] [] i existing t l h = tt
  validate_from-RowFits [] (v ∷ row) i existing t l h = absurd (ground arith)
  validate_from-RowFits (col ∷ cols) [] i existing t l h = absurd (ground arith)
  validate_from-RowFits (col ∷ cols) (v ∷ row) i existing t l h =
      let (first, rest) = >>-ok (validate_cell ops col v i existing t) _ h in
      (
        validate_cell-fits col v i existing t first,
        validate_from-RowFits cols row (suc i) existing t (omega (arith, l)) rest,
      )

  pub validate-RowFits :
      (row : Row) (existing : Option RowId) (t : Table I)
      → validate ops row existing t ≡ ok tt
      → RowFits t.schema.columns row
  unfolding validate
  validate-RowFits row existing t h =
      let (arity, cells) =
        >>-ok (guard (length row == length t.schema.columns) (TableError.refused arity_mismatch)) _
          h in
      validate_from-RowFits t.schema.columns row 0 existing t
        ((==_iff (length row) (length t.schema.columns)).0 (guard-ok _ _ arity)) cells

  pub emplace_new :
      (row : Row) (t : Table I)
      → IsTable t
      → emplace t.next_id row t.rows ≡ t.rows ++ (t.next_id, row) ∷ []
  emplace_new row t w =
      rw (lookup-new t.rows t.next_id (subst (Below t.next_id) (sym w.same_ids) w.below), emplace)

  inserted-IsTable :
      (row : Row) (indexes : List (ℕ × I)) (t : Table I)
      → HasId t
      → IsTable t
      → RowFits t.schema.columns row
      → IsTable (record t {
        rows = emplace t.next_id row t.rows;
        order = t.order ++ t.next_id ∷ [];
        indexes = indexes;
        next_id = (t.next_id + 1) % 2 ^ 64;
      })
  inserted-IsTable row indexes t room w f =
      let n = t.next_id in
      let grows : n < (n + 1) % 2 ^ 64 = omega (arith, room) in
      record {
        same_ids =
            ap keys (emplace_new row t w)
            ∙ keys-append t.rows n row
            ∙ ap (λ ids. ids ++ n ∷ []) w.same_ids;
        ascending = Ascending-append t.order n w.ascending w.below;
        below =
            All-append (λ id. id < (n + 1) % 2 ^ 64) t.order (n ∷ [])
              (Below-mono t.order n _ (omega (arith, grows)) w.below) (grows, tt);
        fit = subst (AllFit t.schema.columns) (sym (emplace_new row t w)) (
            All-append (λ entry. RowFits t.schema.columns entry.1) t.rows ((n, row) ∷ []) w.fit
              (f, tt));
      }

  pub insert-IsTable :
      (row : Row) (t : Table I) → HasId t → IsTable t → IsTable (insert ops row t).0
  unfolding insert
  insert-IsTable row t room w = elim (Result-cases (validate ops row none t)) [
    | inl (u, e) ↦
        rw (e, insert)
          (inserted-IsTable row (notify_insert ops t.next_id row t.indexes).0 t room w
            (validate-RowFits row none t e))
    | inr (x, e) ↦ rw (e, insert) w
  ]

  pub insert_row-IsTable :
      (values : List (Option Datum)) (t : Table I)
      → HasId t
      → IsTable t
      → IsTable (insert_row ops values t).0
  unfolding insert_row
  insert_row-IsTable values t room w =
      elim (Bool-cases (ltb (length t.schema.columns) (length values))) [
        | inl e ↦ rw e w
        | inr e ↦ elim (Result-cases (fill_from {E = E} t.schema.columns values 0)) [
          | inl (row, f) ↦ rw (e, f) (insert-IsTable row t room w)
          | inr (x, f) ↦ rw (e, f) w
        ]
      ]

  pub with_indexes-IsTable :
      (indexes : List (ℕ × I)) (t : Table I) → IsTable t → IsTable (record t { indexes = indexes })
  with_indexes-IsTable indexes t w = record {
    same_ids = w.same_ids;
    ascending = w.ascending;
    below = w.below;
    fit = w.fit;
  }

  write_row-IsTable :
      (id : RowId) (row : Row) (indexes : List (ℕ × I)) (outcome : Result E (Unit {0}))
      (t : Table I)
      → IsTable t
      → RowFits t.schema.columns row
      → IsTable (write_row ops id row indexes outcome t).0
  write_row-IsTable id row indexes (err e) t w f = with_indexes-IsTable indexes t w
  write_row-IsTable id row indexes (ok u) t w f = record {
    same_ids = keys-assign t.rows id row ∙ w.same_ids;
    ascending = w.ascending;
    below = w.below;
    fit = AllFit-assign t.schema.columns t.rows id row f w.fit;
  }

  update_row-IsTable :
      (id : RowId) (column : ℕ) (old new : Datum) (row : Row) (t : Table I)
      → IsTable t
      → IsTable (update_row ops id column old new row t).0
  update_row-IsTable id column old new row t w =
      elim (Result-cases (validate ops row (some id) t)) [
        | inl (u, e) ↦
            let (indexes, outcome) = notify_update ops id column old new t.indexes in
            rw (e, update_row)
              (write_row-IsTable id row _ _ t w (validate-RowFits row (some id) t e))
        | inr (x, e) ↦ rw (e, update_row) w
      ]

  pub update-IsTable :
      (id : RowId) (column : ℕ) (v : Datum) (t : Table I)
      → IsTable t
      → IsTable (update ops id column v t).0
  unfolding update
  update-IsTable id column v t w = elim (Option-cases (lookup id t.rows)) [
    | inl e ↦ rw (e, update) w
    | inr (row, e) ↦ elim (Bool-cases (ltb column (length t.schema.columns))) [
      | inr b ↦ rw (e, b, update) w
      | inl b ↦ elim (Option-cases (get_elem? row column)) [
        | inl g ↦ rw (e, b, g, update) w
        | inr (old, g) ↦
            rw (e, b, g, update) (update_row-IsTable id column old v (set row column v) t w)
      ]
    ]
  ]

  drop_row-IsTable :
      (id : RowId) (indexes : List (ℕ × I)) (outcome : Result E (Unit {0})) (t : Table I)
      → IsTable t
      → IsTable (drop_row ops id indexes outcome t).0
  drop_row-IsTable id indexes (err e) t w = with_indexes-IsTable indexes t w
  drop_row-IsTable id indexes (ok u) t w = record {
    same_ids = keys-remove t.rows id ∙ ap (remove_first id) w.same_ids;
    ascending = Ascending-remove_first t.order id w.ascending;
    below = All-remove_first (λ i. i < t.next_id) t.order id w.below;
    fit = AllFit-remove t.schema.columns t.rows id w.fit;
  }

  pub erase-IsTable : (id : RowId) (t : Table I) → IsTable t → IsTable (erase ops id t).0
  unfolding erase
  erase-IsTable id t w = elim (Option-cases (lookup id t.rows)) [
    | inl e ↦ rw (e, erase) w
    | inr (row, e) ↦ rw (e, erase) (drop_row-IsTable id _ _ t w)
  ]

-- A call of a table's interface; its caller may catch what it throws.
pub data Call : Type 0 where
  insert_call : Row → Call
  insert_row_call : List (Option Datum) → Call
  update_call : RowId → ℕ → Datum → Call
  erase_call : RowId → Call

module _ {I E : Type 0} (ops : IndexOps I E) where
  unfoldable pub run : Call → Table I → Table I
  run (insert_call row) t = (insert ops row t).0
  run (insert_row_call values) t = (insert_row ops values t).0
  run (update_call id column v) t = (update ops id column v t).0
  run (erase_call id) t = (erase ops id t).0

  -- The tables that calls lead to, from a new table with any indexes attached.
  pub data Reachable (s : TableSchema) (indexes : List (ℕ × I)) : Table I → Type 0 where
    start :
        Reachable s indexes
          (record { schema = s; rows = []; order = []; indexes = indexes; next_id = 1 })
    step :
        (t : Table I) (c : Call) → HasId t → Reachable s indexes t → Reachable s indexes (run c t)

  run-IsTable : (c : Call) (t : Table I) → HasId t → IsTable t → IsTable (run c t)
  unfolding run
  run-IsTable (insert_call row) t room w = insert-IsTable ops row t room w
  run-IsTable (insert_row_call values) t room w = insert_row-IsTable ops values t room w
  run-IsTable (update_call id column v) t room w = update-IsTable ops id column v t w
  run-IsTable (erase_call id) t room w = erase-IsTable ops id t w

  -- Whatever the indexes do, also where they throw in the middle of a call: every table that calls
  -- lead to from a new one is well formed, as long as the row ids have not run out.
  pub Reachable-IsTable :
      (s : TableSchema) (indexes : List (ℕ × I)) (t : Table I) → Reachable s indexes t → IsTable t
  Reachable-IsTable s indexes _ start = record {
    same_ids = refl;
    ascending = tt;
    below = tt;
    fit = tt;
  }
  Reachable-IsTable s indexes _ (step t c room r) =
      run-IsTable c t room (Reachable-IsTable s indexes t r)
