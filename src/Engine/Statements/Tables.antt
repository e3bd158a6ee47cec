-- ===== src/Engine/Statements/Tables.antt =====
-- The statements keep the table that they change well formed, on every path.
use dbms_project_sp.Base.{
  Result-cases, ℕ, suc, ◌+◌, ◌^◌, ◌<◌, ◌≤◌, ◌≡◌, refl, Bool, true, false, List, [], ◌∷◌, Option,
  none, some, length, get_elem?, ltb, Bool-cases, Option-cases, inl, inr, set, map, arith, Bytes,
  Result, ok, err,
}
use dbms_project_sp.Base.Int.{ℤ, pos, negsuc}
use dbms_project_sp.Base.Action.{Leads, Keeps, bind-Leads, bind-Keeps, for_each-Keeps, for_each}
use dbms_project_sp.Sql.Ast.{SqlValue, Assignment, Condition}
use dbms_project_sp.Storage.Datum.{Datum}
use dbms_project_sp.Storage.Table.{Table, IndexOps, Row, RowId, validate, lookup}
use dbms_project_sp.Storage.Table.Operations.{
  insert, insert_row, update, update_row, write_row, erase, drop_row, fill_from,
}
use dbms_project_sp.Storage.Table.Rows.{IsTable}
use dbms_project_sp.Storage.Table.Invariant.{
  insert-IsTable, insert_row-IsTable, update-IsTable, erase-IsTable,
}
use dbms_project_sp.Engine.Comparison.{Regex}
use dbms_project_sp.Engine.Candidates.{collect_candidate_rows, matching_rows}
use dbms_project_sp.Engine.Statements.{
  call, reads, insert_values, insert_all, assign_at, assign_one, assign_if, update_row_if,
  update_all, delete_all, stored_value, row_taken, column_positions,
}

-- A well-formed table with ids left for `n` more rows.
abbrev pub HasRoom : {I : Type 0} → ℕ → Table I → Type 0
HasRoom n t = IsTable t × (t.next_id + n < 2 ^ 64)

pub HasRoom-fewer : {I : Type 0} (m n : ℕ) (t : Table I) → m ≤ n → HasRoom n t → HasRoom m t
HasRoom-fewer m n t l h = (h.0, omega (arith, h.1))

module _ {I E : Type 0} (ops : IndexOps I E) where
  insert-next_id :
      (row : Row) (t : Table I) → HasRoom 1 t → (insert ops row t).0.next_id ≤ suc t.next_id
  unfolding insert
  insert-next_id row t h = elim (Result-cases (validate ops row none t)) [
    | inl (u, e) ↦ rw (e, insert) (omega (arith, h.1))
    | inr (x, e) ↦ rw (e, insert) (omega arith)
  ]

  insert-HasRoom : (n : ℕ) (row : Row) → Leads (HasRoom (suc n)) (HasRoom n) (call (insert ops row))
  insert-HasRoom n row t h = (
    insert-IsTable ops row t (omega (arith, h.1)) h.0,
    omega (arith, h.1, insert-next_id row t (h.0, omega (arith, h.1))),
  )

  insert_row-next_id :
      (values : List (Option Datum)) (t : Table I)
      → HasRoom 1 t
      → (insert_row ops values t).0.next_id ≤ suc t.next_id
  unfolding insert_row
  insert_row-next_id values t h =
      elim (Bool-cases (ltb (length t.schema.columns) (length values))) [
        | inl e ↦ rw e (omega arith)
        | inr e ↦ elim (Result-cases (fill_from {E = E} t.schema.columns values 0)) [
          | inl (row, f) ↦ rw (e, f) (insert-next_id row t h)
          | inr (x, f) ↦ rw (e, f) (omega arith)
        ]
      ]

  insert_row-HasRoom :
      (n : ℕ) (values : List (Option Datum))
      → Leads (HasRoom (suc n)) (HasRoom n) (call (insert_row ops values))
  insert_row-HasRoom n values t h = (
    insert_row-IsTable ops values t (omega (arith, h.1)) h.0,
    omega (arith, h.1, insert_row-next_id values t (h.0, omega (arith, h.1))),
  )

  write_row-next_id :
      (id : RowId) (row : Row) (indexes : List (ℕ × I)) (outcome : Result E (Unit {0}))
      (t : Table I)
      → (write_row ops id row indexes outcome t).0.next_id ≡ t.next_id
  write_row-next_id id row indexes (ok u) t = refl
  write_row-next_id id row indexes (err e) t = refl

  update_row-next_id :
      (id : RowId) (column : ℕ) (old new : Datum) (row : Row) (t : Table I)
      → (update_row ops id column old new row t).0.next_id ≡ t.next_id
  update_row-next_id id column old new row t = elim (Result-cases (validate ops row (some id) t)) [
    | inl (u, e) ↦ rw (e, update_row) (write_row-next_id id row _ _ t)
    | inr (x, e) ↦ rw (e, update_row)
  ]

  update-next_id :
      (id : RowId) (column : ℕ) (v : Datum) (t : Table I)
      → (update ops id column v t).0.next_id ≡ t.next_id
  unfolding update
  update-next_id id column v t = elim (Option-cases (lookup id t.rows)) [
    | inl e ↦ rw (e, update)
    | inr (row, e) ↦ elim (Bool-cases (ltb column (length t.schema.columns))) [
      | inr b ↦ rw (e, b, update)
      | inl b ↦ elim (Option-cases (get_elem? row column)) [
        | inl g ↦ rw (e, b, g, update)
        | inr (old, g) ↦
            rw (e, b, g, update) (update_row-next_id id column old v (set row column v) t)
      ]
    ]
  ]

  update-HasRoom :
      (n : ℕ) (id : RowId) (column : ℕ) (v : Datum)
      → Keeps (HasRoom n) (call (update ops id column v))
  update-HasRoom n id column v t h =
      (update-IsTable ops id column v t h.0, omega (arith, h.1, update-next_id id column v t))

  drop_row-next_id :
      (id : RowId) (indexes : List (ℕ × I)) (outcome : Result E (Unit {0})) (t : Table I)
      → (drop_row ops id indexes outcome t).0.next_id ≡ t.next_id
  drop_row-next_id id indexes (ok u) t = refl
  drop_row-next_id id indexes (err e) t = refl

  erase-next_id : (id : RowId) (t : Table I) → (erase ops id t).0.next_id ≡ t.next_id
  unfolding erase
  erase-next_id id t = elim (Option-cases (lookup id t.rows)) [
    | inl e ↦ rw (e, erase)
    | inr (row, e) ↦ rw (e, erase) (drop_row-next_id id _ _ t)
  ]

  erase-HasRoom : (n : ℕ) (id : RowId) → Keeps (HasRoom n) (call (erase ops id))
  erase-HasRoom n id t h = (erase-IsTable ops id t h.0, omega (arith, h.1, erase-next_id id t))

  insert_values-HasRoom :
      (n : ℕ) (names : List Bytes) (positions : List ℤ) (values : List (Option SqlValue))
      → Leads (HasRoom (suc n)) (HasRoom n) (insert_values ops names positions values)
  unfolding insert_values
  insert_values-HasRoom n [] positions values = insert_row-HasRoom n (map stored_value values)
  insert_values-HasRoom n (name ∷ names) positions values =
      bind-Leads (HasRoom (suc n)) (HasRoom (suc n)) (HasRoom n) (reads _) _
        (λ t. HasRoom-fewer n (suc n) t (omega arith)) (λ t h. h)
        (λ row.
          bind-Leads (HasRoom (suc n)) (HasRoom n) (HasRoom n) (call (insert ops row)) _ (λ t h. h)
            (insert-HasRoom n row) (λ id t h. h))

  rows-HasRoom :
      (names : List Bytes) (positions : List ℤ) (rows : List (List (Option SqlValue)))
      → Leads
          (HasRoom (length rows))
          (HasRoom 0)
          (for_each (insert_values ops names positions) rows)
  rows-HasRoom names positions [] = λ t h. h
  rows-HasRoom names positions (values ∷ rows) =
      bind-Leads (HasRoom (suc (length rows))) (HasRoom (length rows)) (HasRoom 0)
        (insert_values ops names positions values)
        (λ _. for_each (insert_values ops names positions) rows)
        (λ t. HasRoom-fewer 0 (length rows) t (omega arith))
        (insert_values-HasRoom (length rows) names positions values)
        (λ _. rows-HasRoom names positions rows)

  pub insert_all-HasRoom :
      (names : List Bytes) (rows : List (List (Option SqlValue)))
      → Leads (HasRoom (length rows)) (HasRoom 0) (insert_all ops names rows)
  unfolding insert_all
  insert_all-HasRoom names rows =
      bind-Leads (HasRoom (length rows)) (HasRoom (length rows)) (HasRoom 0)
        (reads (column_positions names)) _ (λ t. HasRoom-fewer 0 (length rows) t (omega arith))
        (λ t h. h) (λ positions. rows-HasRoom names positions rows)

  assign_one-HasRoom : (id : RowId) (a : Assignment) → Keeps (HasRoom 0) (assign_one ops id a)
  unfolding assign_one
  assign_one-HasRoom id a =
      bind-Keeps (HasRoom 0) (reads _) _ (λ t h. h) (λ column. assign_at-HasRoom id column _)
    where
      assign_at-HasRoom :
          (id : RowId) (column : ℤ) (v : Datum) → Keeps (HasRoom 0) (assign_at ops id column v)
      assign_at-HasRoom id (pos column) v = update-HasRoom 0 id column v
      assign_at-HasRoom id (negsuc n) v = λ t h. h

  assign_if-HasRoom :
      (b : Bool) (id : RowId) (assignments : List Assignment)
      → Keeps (HasRoom 0) (assign_if ops b id assignments)
  assign_if-HasRoom true id assignments =
      for_each-Keeps (HasRoom 0) (assign_one ops id) assignments (assign_one-HasRoom id)
  assign_if-HasRoom false id assignments = λ t h. h

  update_row_if-HasRoom :
      (regex : Regex) (assignments : List Assignment) (where_ : Option Condition) (id : RowId)
      → Keeps (HasRoom 0) (update_row_if ops regex assignments where_ id)
  unfolding update_row_if
  update_row_if-HasRoom regex assignments where_ id =
      bind-Keeps (HasRoom 0) (reads (row_taken ops regex where_ id)) _ (λ t h. h)
        (λ taken. assign_if-HasRoom taken id assignments)

  pub update_all-HasRoom :
      (regex : Regex) (assignments : List Assignment) (where_ : Option Condition)
      → Keeps (HasRoom 0) (update_all ops regex assignments where_)
  unfolding update_all
  update_all-HasRoom regex assignments where_ =
      bind-Keeps (HasRoom 0) (reads (collect_candidate_rows ops where_)) _ (λ t h. h)
        (λ candidates.
          for_each-Keeps (HasRoom 0) (update_row_if ops regex assignments where_) candidates.0
            (update_row_if-HasRoom regex assignments where_))

  pub delete_all-HasRoom :
      (regex : Regex) (where_ : Option Condition) → Keeps (HasRoom 0) (delete_all ops regex where_)
  unfolding delete_all
  delete_all-HasRoom regex where_ =
      bind-Keeps (HasRoom 0) (reads (collect_candidate_rows ops where_)) _ (λ t h. h)
        (λ candidates.
          bind-Keeps (HasRoom 0) (reads (λ t. matching_rows regex where_ t candidates.0)) _
            (λ t h. h)
            (λ found.
              for_each-Keeps (HasRoom 0) (λ id. call (erase ops id)) found (erase-HasRoom 0)))
