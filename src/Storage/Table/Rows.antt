-- ===== src/Storage/Table/Rows.antt =====
-- Well-formed tables, and what the maps and lists of a table keep.
use dbms_project_sp.Base.{
  ℕ, ◌<◌, ◌≤◌, ◌≡◌, refl, ap, Bool, true, false, not, ◌||◌, List, [], ◌∷◌, ◌++◌, none,
  if◌then◌else◌, ◌==◌, arith, All, All-append,
}
use dbms_project_sp.Storage.Datum.{Datum, is_null, matches}
use dbms_project_sp.Storage.Schema.{ColumnDef}
use dbms_project_sp.Storage.Table.{Table, Row, RowId, lookup, remove, assign, remove_first}

-- NULL only where the column takes it, a value only of the column's type.
abbrev pub fits : ColumnDef → Datum → Bool
fits col v = if is_null v then not (col.not_null || col.indexed) else matches v col.type

abbrev pub RowFits : List ColumnDef → Row → Type 0
RowFits [] [] = Unit
RowFits (col ∷ cols) (v ∷ row) = (fits col v ≡ true) × RowFits cols row
RowFits _ _ = ⊥

abbrev pub Ascending : List ℕ → Type 0
Ascending [] = Unit
Ascending (x ∷ xs) = All (λ y. x < y) xs × Ascending xs

abbrev pub keys : List (RowId × Row) → List RowId
keys [] = []
keys ((id, row) ∷ rows) = id ∷ keys rows

abbrev pub AllFit : List ColumnDef → List (RowId × Row) → Type 0
AllFit cols rows = All (λ entry. RowFits cols entry.1) rows

abbrev pub Below : ℕ → List ℕ → Type 0
Below n ids = All (λ id. id < n) ids

-- The ids of the rows are those of the order, each once and ascending, and the next id is new.
pub record IsTable {I : Type 0} (t : Table I) : Type 0 where
  pub same_ids : keys t.rows ≡ t.order
  pub ascending : Ascending t.order
  pub below : Below t.next_id t.order
  pub fit : AllFit t.schema.columns t.rows

pub keys-append :
    (rows : List (RowId × Row)) (id : ℕ) (row : Row)
    → keys (rows ++ (id, row) ∷ []) ≡ keys rows ++ id ∷ []
keys-append [] id row = refl
keys-append ((i, r) ∷ rows) id row = ap (λ ids. i ∷ ids) (keys-append rows id row)

pub lookup-new : (rows : List (RowId × Row)) (n : ℕ) → Below n (keys rows) → lookup n rows ≡ none
lookup-new [] n h = refl
lookup-new ((i, r) ∷ rows) n h = ground (arith, lookup-new rows n h.1, h.0)

pub Below-mono : (ids : List ℕ) (m n : ℕ) → m ≤ n → Below m ids → Below n ids
Below-mono [] m n l h = tt
Below-mono (x ∷ ids) m n l h = (omega (arith, h.0), Below-mono ids m n l h.1)

pub Ascending-append :
    (ids : List ℕ) (n : ℕ) → Ascending ids → Below n ids → Ascending (ids ++ n ∷ [])
Ascending-append [] n h b = (tt, tt)
Ascending-append (x ∷ ids) n h b =
    (All-append (λ y. x < y) ids (n ∷ []) h.0 (b.0, tt), Ascending-append ids n h.1 b.1)

pub All-remove_first {ℓ} :
    (P : ℕ → Type ℓ) (ids : List ℕ) (id : ℕ) → All P ids → All P (remove_first id ids)
All-remove_first P [] id h = h
All-remove_first P (x ∷ ids) id h =
    elim (x == id) as (λ b. All P (if b then ids else x ∷ remove_first id ids)) [
      | true ↦ h.1
      | false ↦ (h.0, All-remove_first P ids id h.1)
    ]

pub Ascending-remove_first :
    (ids : List ℕ) (id : ℕ) → Ascending ids → Ascending (remove_first id ids)
Ascending-remove_first [] id h = h
Ascending-remove_first (x ∷ ids) id h =
    elim (x == id) as (λ b. Ascending (if b then ids else x ∷ remove_first id ids)) [
      | true ↦ h.1
      | false ↦ (All-remove_first (λ y. x < y) ids id h.0, Ascending-remove_first ids id h.1)
    ]

pub keys-remove :
    (rows : List (RowId × Row)) (id : ℕ) → keys (remove id rows) ≡ remove_first id (keys rows)
keys-remove [] id = refl
keys-remove ((i, r) ∷ rows) id =
    elim (i == id)
      as (λ b.
        keys (if b then rows else (i, r) ∷ remove id rows)
        ≡ (if b then keys rows else i ∷ remove_first id (keys rows))) [
          | true ↦ refl
          | false ↦ ap (λ ids. i ∷ ids) (keys-remove rows id)
        ]

pub keys-assign :
    (rows : List (RowId × Row)) (id : ℕ) (row : Row) → keys (assign id row rows) ≡ keys rows
keys-assign [] id row = refl
keys-assign ((i, r) ∷ rows) id row =
    elim (i == id)
      as (λ b. keys (if b then (i, row) ∷ rows else (i, r) ∷ assign id row rows) ≡ i ∷ keys rows) [
        | true ↦ refl
        | false ↦ ap (λ ids. i ∷ ids) (keys-assign rows id row)
      ]

module _ (cols : List ColumnDef) where
  pub AllFit-remove :
      (rows : List (RowId × Row)) (id : ℕ) → AllFit cols rows → AllFit cols (remove id rows)
  AllFit-remove [] id h = h
  AllFit-remove ((i, r) ∷ rows) id h =
      elim (i == id) as (λ b. AllFit cols (if b then rows else (i, r) ∷ remove id rows)) [
        | true ↦ h.1
        | false ↦ (h.0, AllFit-remove rows id h.1)
      ]

  pub AllFit-assign :
      (rows : List (RowId × Row)) (id : ℕ) (row : Row)
      → RowFits cols row
      → AllFit cols rows
      → AllFit cols (assign id row rows)
  AllFit-assign [] id row f h = h
  AllFit-assign ((i, r) ∷ rows) id row f h =
      elim (i == id)
        as (λ b. AllFit cols (if b then (i, row) ∷ rows else (i, r) ∷ assign id row rows)) [
          | true ↦ (f, h.1)
          | false ↦ (h.0, AllFit-assign rows id row f h.1)
        ]
