-- ===== src/Engine/Candidates/Selection.antt =====
-- The rows that a statement selects are those that its condition takes, with an index or without.
use dbms_project_sp.Base.{
  ℕ, ◌≡◌, refl, subst, inl, inr, Bool, true, false, List, Option, none, some, get_elem?, Bool-cases,
  Option-cases, Among, arith, Result, ok, err, ◌>>=◌,
}
use dbms_project_sp.Base.Int.{ℤ, pos, negsuc}
use dbms_project_sp.Sql.Ast.{
  Op, eq, neq, lt, gt, lte, gte, between, like, Condition, Link, node, ref,
}
use dbms_project_sp.Sql.Ast
use dbms_project_sp.Storage.Datum.{Datum, DataType, compare, matches}
use dbms_project_sp.Storage.Schema.{ColumnDef}
use dbms_project_sp.Storage.Table.{Table, IndexOps, Row, RowId, lookup}
use dbms_project_sp.Storage.Table.Rows.{IsTable, fits}
use dbms_project_sp.Storage.Table.Materialize.{MaterializeError, require_column}
use dbms_project_sp.Engine.Errors.{QueryError}
use dbms_project_sp.Engine.Comparison.{
  Regex, constant, accepts, resolve_operand, compare_operands, column_value,
  evaluate_simple_condition,
}
use dbms_project_sp.Engine.Condition.{evaluate_condition}
use dbms_project_sp.Engine.Candidates.{
  from_order, key_candidates, typed_candidates, indexed_candidates, column_candidates,
  simple_candidates, collect_candidate_rows, row_matches,
}
use dbms_project_sp.Engine.Candidates.Complete.{
  IndexAgrees, lookup-Among, lookup-RowFits, get_elem?-fits, eq_candidates, range_candidates,
}

-- The upper bound of BETWEEN is a constant, where the lookup in an index takes it for one.
abbrev pub HasConstantBound : Option Condition → Type 0
HasConstantBound (some (node c lop next tree paren)) = c.right2_is_column ≡ false
HasConstantBound none = Unit

fits-matches : (def : ColumnDef) (x : Datum) → fits def x ≡ true → matches x def.type ≡ true
unfolding matches
fits-matches def Datum.null h = refl
fits-matches def (Datum.int n) h = h
fits-matches def (Datum.str s) h = h

ordered :
    {I E : Type 0} (t : Table I) (id : RowId) {ids : List RowId} {used : Bool}
    → Among id t.order
    → from_order {E = E} t ≡ ok (ids, used)
    → Among id ids
ordered t id {ids} a h = subst (Among id) (ground arith) a

between-bounds :
    {E : Type 0} (regex : Regex) (x low high : Datum)
    → compare_operands {E = E} regex between x low (ok high) ≡ ok true
    → (accepts gte (compare x low) ≡ true) × (accepts lt (compare x high) ≡ true)
unfolding compare_operands
between-bounds regex x low high h = ground arith

eq-accepts :
    {E : Type 0} (regex : Regex) (x y : Datum) (second : Result (QueryError E) Datum)
    → compare_operands {E = E} regex eq x y second ≡ ok true
    → accepts eq (compare x y) ≡ true
unfolding compare_operands
eq-accepts regex x y second h = ground arith

module _ {I E : Type 0} (ops : IndexOps I E) (regex : Regex) (t : Table I) (w : IsTable t)
    (agrees : IndexAgrees ops t) (id : RowId) (row : Row)
    (stored : lookup id t.rows ≡ some row) where
  is_ordered : Among id t.order
  is_ordered = subst (Among id) w.same_ids (lookup-Among id t.rows stored)

  module _ (c : Ast.Comparison) (column : ℕ) (x : Datum) (is_cell : get_elem? row column ≡ some x)
      (ids : List RowId) (used : Bool) where
    keyed :
        (op : Op) (index : I) (type : DataType)
        → lookup column t.indexes ≡ some index
        → matches x type ≡ true
        → compare_operands {E = E} regex op x (constant c.right) (ok (constant c.right2)) ≡ ok true
        → key_candidates ops op c type index t ≡ ok (ids, used)
        → Among id ids
    unfolding key_candidates
    keyed eq index type bound m takes h =
        eq_candidates ops t agrees column index id row x bound stored is_cell type c ids used m
          (eq-accepts {E = E} regex x (constant c.right) _ takes) h
    keyed between index type bound m takes h =
        let (above, below) =
          between-bounds {E = E} regex x (constant c.right) (constant c.right2) takes in
        range_candidates ops t agrees column index id row x bound stored is_cell type c ids used m
          above below h
    keyed neq index type bound m takes h = ordered {E = E} t id is_ordered h
    keyed lt index type bound m takes h = ordered {E = E} t id is_ordered h
    keyed gt index type bound m takes h = ordered {E = E} t id is_ordered h
    keyed lte index type bound m takes h = ordered {E = E} t id is_ordered h
    keyed gte index type bound m takes h = ordered {E = E} t id is_ordered h
    keyed like index type bound m takes h = ordered {E = E} t id is_ordered h

    typed :
        (def : Option ColumnDef) (index : I)
        → get_elem? t.schema.columns column ≡ def
        → lookup column t.indexes ≡ some index
        → compare_operands {E = E} regex c.op x (constant c.right) (ok (constant c.right2))
          ≡ ok true
        → typed_candidates ops def c index t ≡ ok (ids, used)
        → Among id ids
    typed none index e bound takes h = absurd (ground arith)
    typed (some def) index e bound takes h =
        keyed c.op index def.type bound
          (fits-matches def x (
            get_elem?-fits t.schema.columns row column
              (lookup-RowFits t.schema.columns id t.rows w.fit stored) e is_cell))
          takes h

    indexed :
        (binding : Option I)
        → lookup column t.indexes ≡ binding
        → compare_operands {E = E} regex c.op x (constant c.right) (ok (constant c.right2))
          ≡ ok true
        → indexed_candidates ops binding column c t ≡ ok (ids, used)
        → Among id ids
    indexed none bound takes h = ordered {E = E} t id is_ordered h
    indexed (some index) bound takes h =
        typed (get_elem? t.schema.columns column) index refl bound takes h

  -- The left operand is a column, the others are constants.
  column_found :
      (c : Ast.Comparison) (position : Result MaterializeError ℤ) (ids : List RowId) (used : Bool)
      → (column_value {E = E} position row >>= λ left.
          compare_operands regex c.op left (constant c.right) (ok (constant c.right2)))
        ≡ ok true
      → column_candidates ops position c t ≡ ok (ids, used)
      → Among id ids
  column_found c (err e) ids used takes h = absurd (ground arith)
  column_found c (ok (negsuc n)) ids used takes h = absurd (ground arith)
  column_found c (ok (pos column)) ids used takes h = elim (Option-cases (get_elem? row column)) [
    | inl e ↦ absurd (ground (arith, rw (e, column_value) at takes))
    | inr (x, e) ↦
        indexed c column x e ids used (lookup column t.indexes) refl (rw (e, column_value) at takes)
          h
  ]

  simple_found :
      (c : Ast.Comparison) (ids : List RowId) (used : Bool)
      → c.right2_is_column ≡ false
      → evaluate_simple_condition {E = E} regex c t.schema row ≡ ok true
      → simple_candidates ops c t ≡ ok (ids, used)
      → Among id ids
  unfolding simple_candidates evaluate_simple_condition resolve_operand
  simple_found c ids used k takes h = elim (Bool-cases c.left_is_column) [
    | inl l ↦ elim (Bool-cases c.right_is_column) [
      | inl r ↦ ordered {E = E} t id is_ordered (simp (l, r) at h)
      | inr r ↦
          column_found c (require_column c.left t.schema) ids used (simp (l, r, k) at takes)
            (simp (l, r) at h)
    ]
    | inr l ↦ ordered {E = E} t id is_ordered (simp l at h)
  ]

  pub candidate_found :
      (where_ : Option Condition) (ids : List RowId) (used : Bool)
      → HasConstantBound where_
      → row_matches {E = E} regex where_ t.schema row ≡ ok true
      → collect_candidate_rows ops where_ t ≡ ok (ids, used)
      → Among id ids
  unfolding collect_candidate_rows row_matches evaluate_condition
  candidate_found none ids used k takes h = ordered {E = E} t id is_ordered h
  candidate_found (some (node c lop Link.null Link.null paren)) ids used k takes h =
      simple_found c ids used k takes h
  candidate_found (some (node c lop (ref n) Link.null paren)) ids used k takes h =
      ordered {E = E} t id is_ordered h
  candidate_found (some (node c lop Link.null (ref r) paren)) ids used k takes h =
      ordered {E = E} t id is_ordered h
  candidate_found (some (node c lop (ref n) (ref r) paren)) ids used k takes h =
      ordered {E = E} t id is_ordered h
