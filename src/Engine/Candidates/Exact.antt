-- ===== src/Engine/Candidates/Exact.antt =====
-- Which rows are among the candidates that the condition takes.
use dbms_project_sp.Base.{
  ◌≡◌, ◌≢◌, ◌↔◌, refl, ap, inl, inr, Bool, true, false, List, [], ◌∷◌, Option, none, some, subst,
  sym, Option-cases, Among, arith, Result, ok, err, ◌>>=◌,
}
use dbms_project_sp.Sql.Ast.{Condition}
use dbms_project_sp.Storage.Table.{Table, IndexOps, Row, RowId, lookup}
use dbms_project_sp.Storage.Table.Rows.{IsTable}
use dbms_project_sp.Engine.Comparison.{Regex}
use dbms_project_sp.Engine.Candidates.{collect_candidate_rows, row_matches, matching_rows, keep_if}
use dbms_project_sp.Engine.Candidates.Complete.{IndexAgrees}
use dbms_project_sp.Engine.Candidates.Selection.{HasConstantBound, candidate_found}

-- The row stands in the table and the condition takes it.
abbrev pub Taken : {I : Type 0} → (E : Type 0) → Regex → Option Condition → Table I → RowId → Type 0
Taken E regex where_ t id =
    (row : Row) × (lookup id t.rows ≡ some row)
    × (row_matches {E = E} regex where_ t.schema row ≡ ok true)

pub bind_kept :
    {E : Type 0} (x : RowId) (m : Result E Bool) (n : Result E (List RowId)) (found : List RowId)
    → (m >>= λ b. n >>= λ rest. ok (keep_if b x rest)) ≡ ok found
    → (b : Bool) × (rest : List RowId) × (m ≡ ok b) × (n ≡ ok rest) × (keep_if b x rest ≡ found)
bind_kept x (ok b) (ok rest) found h = (b, rest, refl, refl, ground arith)
bind_kept x (ok b) (err e) found h = absurd (ground arith)
bind_kept x (err e) n found h = absurd (ground arith)

module _ {I E : Type 0} (regex : Regex) (where_ : Option Condition) (t : Table I) where
  refused :
      (x : RowId) (row : Row)
      → Taken E regex where_ t x
      → lookup x t.rows ≡ some row
      → row_matches {E = E} regex where_ t.schema row ≢ ok false
  refused x row (row', at', takes') at takes =
      let same : row' ≡ row = ground arith in
      absurd (ground (arith, ap (row_matches {E = E} regex where_ t.schema) same))

  missing : (x : RowId) → Taken E regex where_ t x → lookup x t.rows ≢ none
  missing x (row, at, takes) e = absurd (ground arith)

  -- What a round of the loop gives, from what the condition says of the row, and the rounds after it.
  kept :
      (x : RowId) (row : Row) (b : Bool) (ids rest found : List RowId)
      → lookup x t.rows ≡ some row
      → row_matches {E = E} regex where_ t.schema row ≡ ok b
      → ((id : RowId) → Among id rest ↔ (Among id ids × Taken E regex where_ t id))
      → keep_if b x rest ≡ found
      → (id : RowId) → Among id found ↔ (Among id (x ∷ ids) × Taken E regex where_ t id)
  kept x row true ids rest found at takes ih h id = (
    λ m. elim (subst (Among id) (sym h) m) [
      | inl e ↦ (inl e, subst (Taken E regex where_ t) e (row, at, takes))
      | inr later ↦ (inr ((ih id).0 later).0, ((ih id).0 later).1)
    ],
    λ p. subst (Among id) h (elim p.0 [ inl e ↦ inl e | inr later ↦ inr ((ih id).1 (later, p.1)) ]),
  )
  kept x row false ids rest found at takes ih h id = (
    λ m. let p = (ih id).0 (subst (Among id) (sym h) m) in (inr p.0, p.1),
    λ p. subst (Among id) h (elim p.0 [
      | inl e ↦ absurd (refused x row (subst (Taken E regex where_ t) (sym e) p.1) at takes)
      | inr later ↦ (ih id).1 (later, p.1)
    ]),
  )

  passed :
      (x : RowId) (ids found : List RowId)
      → lookup x t.rows ≡ none
      → ((id : RowId) → Among id found ↔ (Among id ids × Taken E regex where_ t id))
      → (id : RowId) → Among id found ↔ (Among id (x ∷ ids) × Taken E regex where_ t id)
  passed x ids found at ih id = (
    λ m. (inr ((ih id).0 m).0, ((ih id).0 m).1),
    λ p. elim p.0 [
      | inl e ↦ absurd (missing x (subst (Taken E regex where_ t) (sym e) p.1) at)
      | inr later ↦ (ih id).1 (later, p.1)
    ],
  )

  -- The ids that the loop collects are the candidates whose rows are taken.
  collected :
      (ids found : List RowId)
      → matching_rows {E = E} regex where_ t ids ≡ ok found
      → (id : RowId) → Among id found ↔ (Among id ids × Taken E regex where_ t id)
  unfolding matching_rows
  collected [] [] h = λ id. (λ m. absurd m, λ p. absurd p.0)
  collected [] (x ∷ found) h = absurd (ground arith)
  collected (x ∷ ids) found h = elim (Option-cases (lookup x t.rows)) [
    | inl e ↦ passed x ids found e (collected ids found (rw (e, matching_rows) at h))
    | inr (row, e) ↦
        let (b, rest, takes, gives, same) =
          bind_kept x (row_matches regex where_ t.schema row) (matching_rows regex where_ t ids)
            found (rw (e, matching_rows) at h) in
        kept x row b ids rest found e takes (collected ids rest gives) same
  ]

-- The loop of DELETE over the candidates, with an index or without: where the candidates are
-- collected and the loop over them ends, an id is collected exactly when a row stands in the table
-- under it and the condition takes that row. This holds for a well-formed table and indexes that
-- find its rows, if the upper bound of a BETWEEN that is the whole condition is a constant.
pub select-exact :
    {I E : Type 0} (ops : IndexOps I E) (regex : Regex) (where_ : Option Condition) (t : Table I)
    (ids : List RowId) (used : Bool) (found : List RowId)
    → IsTable t
    → IndexAgrees ops t
    → HasConstantBound where_
    → collect_candidate_rows ops where_ t ≡ ok (ids, used)
    → matching_rows {E = E} regex where_ t ids ≡ ok found
    → (id : RowId) → Among id found ↔ Taken E regex where_ t id
select-exact {E = E} ops regex where_ t ids used found w agrees bound collects matches id = (
  λ m. ((collected regex where_ t ids found matches id).0 m).1,
  λ p.
      (collected regex where_ t ids found matches id).1
        (candidate_found ops regex t w agrees id p.0 p.1 where_ ids used bound p.2 collects, p),
)
