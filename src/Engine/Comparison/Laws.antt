-- ===== src/Engine/Comparison/Laws.antt =====
-- What BETWEEN and NULL mean in a comparison.
use dbms_project_sp.Base.{
  ◌≡◌, ◌≢◌, refl, ap, Bool, true, false, not, ◌&&◌, Bytes, Result, ok, err, ◌>>=◌, arith, [],
}
use dbms_project_sp.Sql.Ast
use dbms_project_sp.Sql.Ast.{Op, eq, neq, lt, gt, lte, gte, between, like}
use dbms_project_sp.Storage.Datum
use dbms_project_sp.Storage.Datum.{Datum, invalid, less, equal, greater}
use dbms_project_sp.Storage.Schema.{TableSchema}
use dbms_project_sp.Storage.Table.{Row}
use dbms_project_sp.Engine.Errors.{QueryError}
use dbms_project_sp.Engine.Comparison.{
  Regex, is_valid, is_less, accepts, resolve_operand, compare_operands, evaluate_simple_condition,
}

within :
    (lower upper : Datum.Comparison)
    → (is_valid lower && is_valid upper && not (is_less lower) && is_less upper)
      ≡ (accepts gte lower && accepts lt upper)
within invalid upper = refl
within less invalid = refl
within less less = refl
within less equal = refl
within less greater = refl
within equal invalid = refl
within equal less = refl
within equal equal = refl
within equal greater = refl
within greater invalid = refl
within greater less = refl
within greater equal = refl
within greater greater = refl

module _ {E : Type 0} (regex_match : Regex) (s : TableSchema) (row : Row) where
  between_operands :
      (left right right2 : Result (QueryError E) Datum)
      → (left >>= λ a. right >>= λ b. right2 >>= λ c. ok (
          is_valid (Datum.compare a b)
          && is_valid (Datum.compare a c)
          && not (is_less (Datum.compare a b))
          && is_less (Datum.compare a c)))
        ≡ ((left >>= λ a. right >>= λ b. ok (accepts gte (Datum.compare a b))) >>= λ x.
            (left >>= λ a. right2 >>= λ c. ok (accepts lt (Datum.compare a c))) >>= λ y.
            ok (x && y))
  between_operands (err e) right right2 = refl
  between_operands (ok a) (err e) right2 = refl
  between_operands (ok a) (ok b) (err e) = refl
  between_operands (ok a) (ok b) (ok c) = ap ok (within (Datum.compare a b) (Datum.compare a c))

  -- `x BETWEEN a AND b` is `x >= a AND x < b`, the upper bound left out, with the same exceptions.
  pub between-half_open :
      (left right right2 : Bytes) (left_column right_column right2_column : Bool)
      → evaluate_simple_condition {E = E} regex_match
          (record {
            left = left;
            left_is_column = left_column;
            op = between;
            right = right;
            right_is_column = right_column;
            right2 = right2;
            right2_is_column = right2_column;
          })
          s
          row
        ≡ (evaluate_simple_condition {E = E} regex_match
              (record {
                left = left;
                left_is_column = left_column;
                op = gte;
                right = right;
                right_is_column = right_column;
                right2 = [];
                right2_is_column = false;
              })
              s
              row
            >>= λ x.
                evaluate_simple_condition {E = E} regex_match
                  (record {
                    left = left;
                    left_is_column = left_column;
                    op = lt;
                    right = right2;
                    right_is_column = right2_column;
                    right2 = [];
                    right2_is_column = false;
                  })
                  s
                  row
                >>= λ y. ok (x && y))
  unfolding evaluate_simple_condition compare_operands
  between-half_open left right right2 left_column right_column right2_column =
      between_operands (resolve_operand left left_column s row)
        (resolve_operand right right_column s row) (resolve_operand right2 right2_column s row)

  null_operator :
      (op : Op) (right : Datum) (second : Result (QueryError E) Datum)
      → compare_operands {E = E} regex_match op Datum.null right second ≢ ok true
  unfolding compare_operands Datum.compare
  null_operator between right (ok b) h = absurd (ground arith)
  null_operator between right (err e) h = absurd (ground arith)
  null_operator like right second h = absurd (ground arith)
  null_operator eq right second h = absurd (ground arith)
  null_operator neq right second h = absurd (ground arith)
  null_operator lt right second h = absurd (ground arith)
  null_operator gt right second h = absurd (ground arith)
  null_operator lte right second h = absurd (ground arith)
  null_operator gte right second h = absurd (ground arith)

  null_operands :
      (op : Op) (right second : Result (QueryError E) Datum)
      → (right >>= λ b. compare_operands {E = E} regex_match op Datum.null b second) ≢ ok true
  null_operands op (ok b) second h = null_operator op b second h
  null_operands op (err e) second h = absurd (ground arith)

  -- A comparison whose left operand is NULL holds for no operator, BETWEEN, LIKE and `!=` included.
  pub evaluate_simple_condition-null :
      (c : Ast.Comparison)
      → resolve_operand {E = E} c.left c.left_is_column s row ≡ ok Datum.null
      → evaluate_simple_condition {E = E} regex_match c s row ≢ ok true
  unfolding evaluate_simple_condition
  evaluate_simple_condition-null c h k =
      null_operands c.op (resolve_operand c.right c.right_is_column s row)
        (resolve_operand c.right2 c.right2_is_column s row) (rw (evaluate_simple_condition, h) at k)
