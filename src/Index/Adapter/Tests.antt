-- ===== src/Index/Adapter/Tests.antt =====
-- A table of four rows, with a tree on its only column.
use dbms_project_sp.Base.{
  ℕ, err, zero, suc, ◌≡◌, ◌≢◌, refl, subst, List, [], ◌∷◌, Option, some, get_elem?, ◌==◌,
  Bool-cases, inl, inr, All, arith,
}
use dbms_project_sp.Base.Int.{pos}
use dbms_project_sp.Storage.Datum.{Datum}
use dbms_project_sp.Storage.Table.{Table, Row, RowId, lookup}
use dbms_project_sp.Engine.Tests.{age_schema}
use dbms_project_sp.Engine.Candidates.Complete.{IndexAgrees}
use dbms_project_sp.Index.Key.{key_matches_kind}
use dbms_project_sp.Index.Entries.{Entries}
use dbms_project_sp.Index.Tree.{BStarPlusIndex}
use dbms_project_sp.Index.Tree.Shape.{IsIndex}
use dbms_project_sp.Index.Tree.Tests.{key, two_leaves, four_entries, two_leaves-IsTree}
use dbms_project_sp.Index.Adapter.{to_index_key, bstarplus_adapter}
use dbms_project_sp.Engine.Errors.{index_failed}
use dbms_project_sp.Engine.Statements.Execute.Attach.{bind_index, attach_index}
use dbms_project_sp.Index.Scalar.{invalid_argument}
use dbms_project_sp.Index.Adapter.Again.{attach_index-again}
use dbms_project_sp.Index.Adapter.Agrees.{Holds, IndexedBy, trees-IndexAgrees}

abbrev age : ℕ → Row
age n = Datum.int (pos n) ∷ []

abbrev ages : Table BStarPlusIndex
ages = record {
  schema = age_schema;
  rows = (10, age 1) ∷ (30, age 3) ∷ (50, age 5) ∷ (80, age 8) ∷ [];
  order = 10 ∷ 30 ∷ 50 ∷ 80 ∷ [];
  indexes = (0, two_leaves) ∷ [];
  next_id = 81;
}

lookup-All :
    (P : RowId → Row → Type 0) (rows : List (RowId × Row)) (id : RowId) (row : Row)
    → All (λ r. P r.0 r.1) rows
    → lookup id rows ≡ some row
    → P id row
lookup-All P [] id row h e = absurd (ground arith)
lookup-All P ((k, r) ∷ rows) id row h e = elim (Bool-cases (k == id)) [
  | inl same ↦
      subst (P id) (ground (arith, rw same at e)) (subst (λ k. P k r) (ground (arith, same)) h.0)
  | inr other ↦ lookup-All P rows id row h.1 (rw other at e)
]

some-injective : {A : Type 0} {a b : A} → ◌≡◌ {A = Option A} (some a) (some b) → a ≡ b
some-injective h = ground arith

abbrev CellHeld : RowId → Row → Type 0
CellHeld id row = (x : Datum) → get_elem? row 0 ≡ some x → Holds two_leaves four_entries x id

age_held : (n id : ℕ) → Holds two_leaves four_entries (Datum.int (pos n)) id → CellHeld id (age n)
age_held n id h x is_cell =
    subst (λ x. Holds two_leaves four_entries x id) (some-injective is_cell) h

ages_held : All (λ r. CellHeld r.0 r.1) ages.rows
unfolding to_index_key key_matches_kind
ages_held = (
  age_held 1 10 (record { key = key 1; of_cell = refl; of_kind = refl; there = refl }),
  (
    age_held 3 30 (record { key = key 3; of_cell = refl; of_kind = refl; there = refl }),
    (
      age_held 5 50 (record { key = key 5; of_cell = refl; of_kind = refl; there = refl }),
      (age_held 8 80 (record { key = key 8; of_cell = refl; of_kind = refl; there = refl }), tt),
    ),
  ),
)

abbrev HeldBy : ℕ → BStarPlusIndex → Type 0
HeldBy column index =
    (es : Entries) × IsIndex index es
    × ((id : RowId) (row : Row) (x : Datum)
        → lookup id ages.rows ≡ some row
        → get_elem? row column ≡ some x
        → x ≢ Datum.null
        → Holds index es x id)

ages-IndexedBy : IndexedBy ages
ages-IndexedBy zero index bound = subst (HeldBy 0) (some-injective bound) (
  four_entries,
  inl two_leaves-IsTree,
  λ id row x stored is_cell some_value.
      lookup-All CellHeld ages.rows id row ages_held stored x is_cell,
)
ages-IndexedBy (suc column) index bound = absurd (ground (arith, bound))

trees-IndexAgrees_example : IndexAgrees bstarplus_adapter ages
trees-IndexAgrees_example = trees-IndexAgrees ages ages-IndexedBy

attach_index-again_example : attach_index bstarplus_adapter 0 two_leaves ages ≡ (
  record ages { indexes = bind_index 0 two_leaves ages.indexes },
  err (index_failed invalid_argument),
)
unfolding to_index_key key_matches_kind
attach_index-again_example =
    attach_index-again 0 two_leaves four_entries ages 10 10 (30 ∷ 50 ∷ 80 ∷ []) (age 1)
      (Datum.int (pos 1)) (omega arith) refl refl refl (inl two_leaves-IsTree)
      (record { key = key 1; of_cell = refl; of_kind = refl; there = refl })
