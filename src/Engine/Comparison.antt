-- ===== src/Engine/Comparison.antt =====
-- `resolve_operand` and `evaluate_simple_condition` of executor/src/query_engine.cpp, over the match
-- of a regular expression, which may throw.
pub mod Laws
use dbms_project_sp.Base.{
  ℕ, ◌≡◌, refl, Bool, true, false, not, ◌&&◌, List, [], ◌∷◌, Option, none, some, get_elem?,
  if◌then◌else◌, Bytes, bytes_eq, codes, Result, ok, err, ◌>>=◌,
}
use dbms_project_sp.Base.Int.{ℤ, pos, negsuc}
use dbms_project_sp.Base.Number.{NumberError, stoll}
use dbms_project_sp.Sql.Ast
use dbms_project_sp.Sql.Ast.{Op, eq, neq, lt, gt, lte, gte, between, like}
use dbms_project_sp.Storage.Datum
use dbms_project_sp.Storage.Datum.{Datum, invalid, less, equal, greater}
use dbms_project_sp.Storage.Schema.{TableSchema}
use dbms_project_sp.Storage.Table.{Row}
use dbms_project_sp.Engine.Errors.{QueryError, column_error, out_of_bounds, bad_pattern}
use dbms_project_sp.Storage.Table.Materialize.{MaterializeError, require_column}

module _ {E : Type 0} where
  abbrev pub cell : Option Datum → Result (QueryError E) Datum
  cell (some d) = ok d
  cell none = err out_of_bounds

  abbrev pub column_value : Result MaterializeError ℤ → Row → Result (QueryError E) Datum
  column_value (err e) row = err (column_error e)
  column_value (ok (pos i)) row = cell (get_elem? row i)
  column_value (ok (negsuc i)) row = err out_of_bounds

-- A number only if the whole text is one; what `std::stoll` throws is caught.
abbrev pub number_or_text : Result NumberError (ℤ × Bytes) → Bytes → Datum
number_or_text (ok (n, [])) text = Datum.int n
number_or_text (ok (n, c ∷ rest)) text = Datum.str text
number_or_text (err e) text = Datum.str text

abbrev pub constant : Bytes → Datum
constant text =
    if bytes_eq text (codes "NULL") then Datum.null else number_or_text (stoll text) text

unfoldable pub resolve_operand :
    {E : Type 0} → Bytes → Bool → TableSchema → Row → Result (QueryError E) Datum
resolve_operand text is_column s row =
    if is_column then column_value (require_column text s) row else ok (constant text)

abbrev pub is_valid : Datum.Comparison → Bool
is_valid invalid = false
is_valid _ = true

abbrev pub is_less : Datum.Comparison → Bool
is_less less = true
is_less _ = false

-- The `switch` on the operator, behind the test that the values can be compared.
abbrev pub accepts : Op → Datum.Comparison → Bool
accepts op invalid = false
accepts eq c = elim c [ equal ↦ true | _ ↦ false ]
accepts neq c = elim c [ equal ↦ false | _ ↦ true ]
accepts lt c = is_less c
accepts gt c = elim c [ greater ↦ true | _ ↦ false ]
accepts lte c = elim c [ greater ↦ false | _ ↦ true ]
accepts gte c = not (is_less c)
accepts between c = false
accepts like c = false

-- `std::regex_match`; `none` is the exception of a pattern that is none.
abbrev pub Regex : Type 0
Regex = Bytes → Bytes → Option Bool

abbrev matched : {E : Type 0} → Option Bool → Result (QueryError E) Bool
matched none = err bad_pattern
matched (some b) = ok b

module _ {E : Type 0} (regex_match : Regex) where
  abbrev pub matches_pattern : Datum → Datum → Result (QueryError E) Bool
  matches_pattern (Datum.str text) (Datum.str pattern) = matched (regex_match text pattern)
  matches_pattern _ _ = ok false

  -- The second bound is resolved only for BETWEEN.
  unfoldable pub compare_operands :
      Op → Datum → Datum → Result (QueryError E) Datum → Result (QueryError E) Bool
  compare_operands between left right second = second >>= λ right2.
      let lower = Datum.compare left right in
      let upper = Datum.compare left right2 in
      ok (is_valid lower && is_valid upper && not (is_less lower) && is_less upper)
  compare_operands like left right second = matches_pattern left right
  compare_operands op left right second = ok (accepts op (Datum.compare left right))

  unfoldable pub evaluate_simple_condition :
      Ast.Comparison → TableSchema → Row → Result (QueryError E) Bool
  evaluate_simple_condition c s row = resolve_operand c.left c.left_is_column s row >>= λ left.
      resolve_operand c.right c.right_is_column s row >>= λ right.
      compare_operands c.op left right (resolve_operand c.right2 c.right2_is_column s row)
