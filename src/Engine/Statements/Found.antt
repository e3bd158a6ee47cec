-- ===== src/Engine/Statements/Found.antt =====
-- Which rows SELECT prints and which DELETE erases.
use dbms_project_sp.Base.{
  ◌≡◌, ◌↔◌, ◌⊎◌, Bool, List, [], ◌∷◌, ◌++◌, Option, some, Among, Bytes, Result, ok, err,
}
use dbms_project_sp.Base.Action.{for_each}
use dbms_project_sp.Sql.Ast.{SelectColumn, Condition}
use dbms_project_sp.Storage.Table.{Table, IndexOps, Row, RowId, lookup}
use dbms_project_sp.Storage.Table.Operations.{erase}
use dbms_project_sp.Engine.Errors.{QueryError}
use dbms_project_sp.Engine.Comparison.{Regex}
use dbms_project_sp.Engine.Candidates.{collect_candidate_rows, matching_rows}
use dbms_project_sp.Engine.Candidates.Exact.{Taken}
use dbms_project_sp.Engine.Json.{row_to_json_object, separated}
use dbms_project_sp.Engine.Statements.{call, print_rows, delete_all}

-- The text is that of the rows with these ids, in this order, with commas between them.
abbrev pub Printed :
    {I : Type 0} → (E : Type 0) → Bool → List SelectColumn → Table I → List RowId → Bytes → Type 0
Printed E star columns t [] text = text ≡ []
Printed E star columns t (id ∷ ids) text =
    (row : Row) × (object : Bytes) × (rest : Bytes) × (lookup id t.rows ≡ some row)
    × (row_to_json_object {E = E} star columns t.schema row ≡ ok object)
    × Printed E star columns t ids rest
    × (text ≡ separated object rest)

module _ {I E : Type 0} (ops : IndexOps I E) (regex : Regex) (star : Bool)
    (columns : List SelectColumn) (where_ : Option Condition) (t : Table I) where
  -- What the loop of SELECT is when it ends with a text.
  abbrev Ends : List RowId → Bytes → Type 0
  Ends ids text =
      (found : List RowId) × (matching_rows {E = E} regex where_ t ids ≡ ok found)
      × Printed E star columns t found text

  abbrev loop : List RowId → Result (QueryError E) Bytes
  loop ids = print_rows ops regex star columns where_ t ids

  -- The rows of a text that SELECT gives: those of the candidates that the condition takes, and all
  -- that it takes.
  abbrev pub Selects : Bytes → Bool → Type 0
  Selects text used =
      (ids : List RowId) × (found : List RowId) × (objects : Bytes) × (collect_candidate_rows ops
          where_ t
        ≡ ok (ids, used))
      × (matching_rows {E = E} regex where_ t ids ≡ ok found)
      × Printed E star columns t found objects
      × (text ≡ b'[' ∷ (objects ++ b']' ∷ []))
      × ((id : RowId) → Among id found ↔ Taken E regex where_ t id)

-- How DELETE goes on: it erases the rows that were found, or it throws before it erases any.
module _ {I E : Type 0} (ops : IndexOps I E) (regex : Regex) (where_ : Option Condition)
    (t : Table I) where
  abbrev pub Erases : Type 0
  Erases =
      (found : List RowId) × (delete_all ops regex where_ t
        ≡ for_each (λ id. call (erase ops id)) found t)
      × ((id : RowId) → Among id found ↔ Taken E regex where_ t id)

  -- The candidates are not collected, or the condition throws on one of them.
  abbrev pub Throws : QueryError E → Type 0
  Throws e =
      (collect_candidate_rows ops where_ t ≡ err e)
      ⊎ ((ids : List RowId) × (used : Bool) × (collect_candidate_rows ops where_ t ≡ ok (ids, used))
          × (matching_rows {E = E} regex where_ t ids ≡ err e))
