-- ===== src/Engine/Candidates/Complete.antt =====
-- A lookup in an index by the constants of a comparison gives each row that the comparison takes.
use dbms_project_sp.Base.{
  ℕ, ◌≡◌, ◌≢◌, refl, sym, ◌∙◌, ap, subst, inl, inr, Bool, true, List, [], ◌∷◌, Option, some,
  get_elem?, Bytes, ◌==◌, ==_iff, Bool-cases, Among, arith, Result, ok, err, ◌>>=◌,
}
use dbms_project_sp.Sql.Ast.{Op, eq, gte, lt, between, Comparison, Condition, node, ref}
use dbms_project_sp.Sql.Ast
use dbms_project_sp.Storage.Datum
use dbms_project_sp.Storage.Datum.{Datum, DataType, compare, matches, invalid, less, equal, greater}
use dbms_project_sp.Storage.Datum.Order.{compare_order}
use dbms_project_sp.Storage.Schema.{ColumnDef}
use dbms_project_sp.Storage.Table.{Table, IndexOps, Row, RowId, lookup}
use dbms_project_sp.Storage.Table.Rows.{RowFits, AllFit, keys, fits}
use dbms_project_sp.Engine.Errors.{QueryError}
use dbms_project_sp.Engine.Comparison.{constant, is_valid, accepts}
use dbms_project_sp.Engine.Candidates.{
  from_index, parse_literal_for_column, lift_found, at_most_one, key_candidates,
}
use dbms_project_sp.Engine.Candidates.Literal.{parse_literal-constant}

-- What a query asks of the indexes of a table: a key that a row has in an indexed column is found
-- with the row's id, where the lookup ends, and a range holds the ids of the rows between its ends.
pub record IndexAgrees {I E : Type 0} (ops : IndexOps I E) (t : Table I) : Type 0 where
  pub found :
      (column : ℕ) (index : I) (id : RowId) (row : Row) (x : Datum) (r : Option RowId)
      → lookup column t.indexes ≡ some index
      → lookup id t.rows ≡ some row
      → get_elem? row column ≡ some x
      → x ≢ Datum.null
      → ops.find x index ≡ ok r
      → r ≡ some id
  pub ranged :
      (column : ℕ) (index : I) (id : RowId) (row : Row) (x low high : Datum) (ids : List RowId)
      → lookup column t.indexes ≡ some index
      → lookup id t.rows ≡ some row
      → get_elem? row column ≡ some x
      → accepts gte (compare x low) ≡ true
      → accepts lt (compare x high) ≡ true
      → ops.range_search low high index ≡ ok ids
      → Among id ids

pub lookup-Among :
    (id : RowId) (rows : List (RowId × Row)) {row : Row}
    → lookup id rows ≡ some row
    → Among id (keys rows)
lookup-Among id [] h = absurd (ground arith)
lookup-Among id ((key, r) ∷ rows) h = elim (Bool-cases (key == id)) [
  | inl e ↦ inl ((==_iff key id).0 e)
  | inr e ↦ inr (lookup-Among id rows (rw e at h))
]

pub lookup-RowFits :
    (cols : List ColumnDef) (id : RowId) (rows : List (RowId × Row)) {row : Row}
    → AllFit cols rows
    → lookup id rows ≡ some row
    → RowFits cols row
lookup-RowFits cols id [] f h = absurd (ground arith)
lookup-RowFits cols id ((key, r) ∷ rows) {row} f h = elim (Bool-cases (key == id)) [
  | inl e ↦ subst (RowFits cols) (ground (arith, rw e at h)) f.0
  | inr e ↦ lookup-RowFits cols id rows f.1 (rw e at h)
]

pub get_elem?-fits :
    (cols : List ColumnDef) (row : Row) (i : ℕ) {def : ColumnDef} {x : Datum}
    → RowFits cols row
    → get_elem? cols i ≡ some def
    → get_elem? row i ≡ some x
    → fits def x ≡ true
get_elem?-fits [] row i f h k = absurd (ground arith)
get_elem?-fits (col ∷ cols) [] i f h k = absurd (ground arith)
get_elem?-fits (col ∷ cols) (v ∷ row) ℕ.zero f h k = ground (arith, f.0)
get_elem?-fits (col ∷ cols) (v ∷ row) (ℕ.suc i) f h k = get_elem?-fits cols row i f.1 h k

accepts_eq : (k : Datum.Comparison) → accepts eq k ≡ true → k ≡ equal
accepts_eq invalid h = absurd (ground arith)
accepts_eq less h = absurd (ground arith)
accepts_eq equal h = refl
accepts_eq greater h = absurd (ground arith)

pub accepts-is_valid : (op : Op) (k : Datum.Comparison) → accepts op k ≡ true → is_valid k ≡ true
accepts-is_valid op invalid h = absurd (ground arith)
accepts-is_valid op less h = refl
accepts-is_valid op equal h = refl
accepts-is_valid op greater h = refl

pair_ids :
    {E : Type 0} (xs ys : List RowId) (c : Bool) → from_index {E = E} xs ≡ ok (ys, c) → xs ≡ ys
pair_ids xs ys c h = ground arith

module _ {I E : Type 0} (ops : IndexOps I E) (t : Table I) (agrees : IndexAgrees ops t) (column : ℕ)
    (index : I) (id : RowId) (row : Row) (x : Datum) (bound : lookup column t.indexes ≡ some index)
    (stored : lookup id t.rows ≡ some row) (is_cell : get_elem? row column ≡ some x)
    (type : DataType) where
  eq_found :
      (key : Datum) (found : Result E (Option RowId)) (ids : List RowId) (used : Bool)
      → ((r : Option RowId) → found ≡ ok r → r ≡ some id)
      → (lift_found found >>= λ r. from_index (at_most_one r)) ≡ ok (ids, used)
      → Among id ids
  eq_found key (err e) ids used same h = absurd (ground arith)
  eq_found key (ok r) ids used same h =
      subst (Among id) (pair_ids {E = E} (at_most_one r) ids used h)
        (subst (λ o. Among id (at_most_one o)) (sym (same r refl)) (inl refl))

  eq_keyed :
      (text : Bytes) (parsed : Result (QueryError E) Datum) (ids : List RowId) (used : Bool)
      → x ≡ constant text
      → x ≢ Datum.null
      → ((key : Datum) → parsed ≡ ok key → constant text ≡ key)
      → (parsed >>= λ key. lift_found (ops.find key index) >>= λ r. from_index (at_most_one r))
        ≡ ok (ids, used)
      → Among id ids
  eq_keyed text (err e) ids used same some_value is_key h = absurd (ground arith)
  eq_keyed text (ok key) ids used same some_value is_key h =
      eq_found key (ops.find key index) ids used
        (λ r e.
          agrees.found column index id row x r bound stored is_cell some_value
            (ap (λ k. ops.find k index) (same ∙ is_key key refl) ∙ e))
        h

  pub eq_candidates :
      (c : Ast.Comparison) (ids : List RowId) (used : Bool)
      → matches x type ≡ true
      → accepts eq (compare x (constant c.right)) ≡ true
      → key_candidates ops eq c type index t ≡ ok (ids, used)
      → Among id ids
  unfolding key_candidates
  eq_candidates c ids used m a h =
      let same = accepts_eq (compare x (constant c.right)) a in
      let (is_constant, some_value) = (compare_order x (constant c.right) x).1.0 same in
      eq_keyed c.right (parse_literal_for_column c.right type) ids used is_constant some_value
        (λ key e. parse_literal-constant x type c.right key m (ap is_valid same) e) h

  range_found :
      (low high : Datum) (found : Result E (List RowId)) (ids : List RowId) (used : Bool)
      → ((found_ids : List RowId) → found ≡ ok found_ids → Among id found_ids)
      → (lift_found found >>= λ r. from_index r) ≡ ok (ids, used)
      → Among id ids
  range_found low high (err e) ids used holds h = absurd (ground arith)
  range_found low high (ok r) ids used holds h =
      subst (Among id) (pair_ids {E = E} r ids used h) (holds r refl)

  range_keyed :
      (low high : Datum) (parsed parsed2 : Result (QueryError E) Datum) (ids : List RowId)
      (used : Bool)
      → accepts gte (compare x low) ≡ true
      → accepts lt (compare x high) ≡ true
      → ((key : Datum) → parsed ≡ ok key → low ≡ key)
      → ((key : Datum) → parsed2 ≡ ok key → high ≡ key)
      → (parsed >>= λ a.
          parsed2 >>= λ b. lift_found (ops.range_search a b index) >>= λ r. from_index r)
        ≡ ok (ids, used)
      → Among id ids
  range_keyed low high (err e) parsed2 ids used above below is_low is_high h = absurd (ground arith)
  range_keyed low high (ok a) (err e) ids used above below is_low is_high h = absurd (ground arith)
  range_keyed low high (ok a) (ok b) ids used above below is_low is_high h =
      range_found a b (ops.range_search a b index) ids used
        (λ r e.
          agrees.ranged column index id row x a b r bound stored is_cell
            (subst (λ k. accepts gte (compare x k) ≡ true) (is_low a refl) above)
            (subst (λ k. accepts lt (compare x k) ≡ true) (is_high b refl) below) e)
        h

  pub range_candidates :
      (c : Ast.Comparison) (ids : List RowId) (used : Bool)
      → matches x type ≡ true
      → accepts gte (compare x (constant c.right)) ≡ true
      → accepts lt (compare x (constant c.right2)) ≡ true
      → key_candidates ops between c type index t ≡ ok (ids, used)
      → Among id ids
  unfolding key_candidates
  range_candidates c ids used m above below h =
      range_keyed (constant c.right) (constant c.right2) (parse_literal_for_column c.right type)
        (parse_literal_for_column c.right2 type) ids used above below
        (λ key e.
          parse_literal-constant x type c.right key m
            (accepts-is_valid gte (compare x (constant c.right)) above) e)
        (λ key e.
          parse_literal-constant x type c.right2 key m
            (accepts-is_valid lt (compare x (constant c.right2)) below) e)
        h
