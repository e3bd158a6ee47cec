-- ===== src/Engine/Tests.antt =====
-- The execution of conditions at concrete inputs.
use dbms_project_sp.Base.Int.{pos}
use dbms_project_sp.Base.JsonText.{plain, read_text}
use dbms_project_sp.Engine.Json.{escape_json}
use dbms_project_sp.Engine.Json.Read.{all_written, escape_json-read}
use dbms_project_sp.Storage.Datum.{Datum, DataType}
use dbms_project_sp.Storage.Schema.{TableSchema, find_index}
use dbms_project_sp.Storage.Table.Materialize.{require_column}
use dbms_project_sp.Engine.Comparison.{Regex, resolve_operand, evaluate_simple_condition}
use dbms_project_sp.Engine.Comparison.Laws.{between-half_open, evaluate_simple_condition-null}
use dbms_project_sp.Base.{
  if◌then◌else◌, ◌++◌, [], true, ◌≢◌, ◌>>=◌, none, some, ◌∷◌, ◌≡◌, refl, inr, Bool, false, ◌&&◌,
  ◌||◌, bytes_eq, codes, Result, ok,
}
use dbms_project_sp.Sql.Ast.{or, neq, lt, gte, between, Comparison, Condition}
use dbms_project_sp.Sql.Conditions.{simple, combine_conditions, parse_condition}
use dbms_project_sp.Sql.Conditions.Formula.{formula_tokens}
use dbms_project_sp.Sql.Tests.{column_is, nested, nested-IsWellFormed, ends, ends-Follows}
use dbms_project_sp.Engine.Condition.{evaluate_condition}
use dbms_project_sp.Engine.Condition.Combine.{joined, combine-joined}
use dbms_project_sp.Engine.Condition.Meaning.{meaning, parse-meaning}
use dbms_project_sp.Engine.Condition.Mixing.{mixed_tokens, parse_mixed}

-- A row for which the comparison with `c` holds, and no other.
abbrev only_c : Comparison → Bool
only_c c = bytes_eq c.left (codes "c")

abbrev evaluate_only_c : Comparison → Result (Unit {0}) Bool
evaluate_only_c c = ok (only_c c)

parse-meaning_example :
    (c : Condition) × (parse_condition (formula_tokens false nested ends) ≡ ok (c, ends))
    × (evaluate_condition evaluate_only_c c ≡ meaning evaluate_only_c nested)
parse-meaning_example = parse-meaning evaluate_only_c nested ends nested-IsWellFormed ends-Follows

abbrev a : Comparison
a = column_is "a" "1"

abbrev b : Comparison
b = column_is "b" "2"

abbrev c : Comparison
c = column_is "c" "3"

abbrev d : Comparison
d = column_is "d" "4"

-- Only `d` holds.
abbrev only_d : Comparison → Bool
only_d x = bytes_eq x.left (codes "d")

parse_mixed_example :
    (e : Condition) × (parse_condition (mixed_tokens a b c d ends) ≡ ok (e, ends))
    × (evaluate_condition {E = Unit {0}} (λ x. ok (only_d x)) e
        ≡ ok (only_d a || (only_d b && (only_d c || only_d d))))
parse_mixed_example =
    parse_mixed only_d a b c d ends (λ h. (refl, refl)) (λ h. (refl, refl)) (λ h. (refl, refl))
      (λ h. (refl, refl)) ends-Follows

combine-joined_example :
    evaluate_condition evaluate_only_c (combine_conditions (simple a) (simple c) or)
    ≡ joined or
        (evaluate_condition evaluate_only_c (simple a))
        (evaluate_condition evaluate_only_c (simple c))
combine-joined_example =
    combine-joined evaluate_only_c or (simple a) (simple c) (inr refl) (λ h. refl)

abbrev pub exact_match : Regex
exact_match text pattern = some (bytes_eq text pattern)

abbrev pub age_schema : TableSchema
age_schema = record {
  columns =
      record {
        name = codes "age";
        type = DataType.int;
        not_null = false;
        indexed = false;
        default_value = none;
      }
      ∷ [];
  index_by_name = (codes "age", 0) ∷ [];
}

between-half_open_example :
    evaluate_simple_condition {E = Bool} exact_match
      (record {
        left = codes "age";
        left_is_column = true;
        op = between;
        right = codes "18";
        right_is_column = false;
        right2 = codes "65";
        right2_is_column = false;
      })
      age_schema
      (Datum.int (pos 65) ∷ [])
    ≡ (evaluate_simple_condition {E = Bool} exact_match
          (record {
            left = codes "age";
            left_is_column = true;
            op = gte;
            right = codes "18";
            right_is_column = false;
            right2 = [];
            right2_is_column = false;
          })
          age_schema
          (Datum.int (pos 65) ∷ [])
        >>= λ x.
            evaluate_simple_condition {E = Bool} exact_match
              (record {
                left = codes "age";
                left_is_column = true;
                op = lt;
                right = codes "65";
                right_is_column = false;
                right2 = [];
                right2_is_column = false;
              })
              age_schema
              (Datum.int (pos 65) ∷ [])
            >>= λ y. ok (x && y))
between-half_open_example =
    between-half_open exact_match age_schema (Datum.int (pos 65) ∷ []) (codes "age") (codes "18")
      (codes "65") true false false

abbrev age_is_not : Comparison
age_is_not = record {
  left = codes "age";
  left_is_column = true;
  op = neq;
  right = codes "18";
  right_is_column = false;
  right2 = [];
  right2_is_column = false;
}

age_null :
    resolve_operand {E = Bool} age_is_not.left age_is_not.left_is_column age_schema
      (Datum.null ∷ [])
    ≡ ok Datum.null
unfolding resolve_operand require_column find_index bytes_eq
age_null = refl

evaluate_simple_condition-null_example :
    evaluate_simple_condition {E = Bool} exact_match age_is_not age_schema (Datum.null ∷ [])
    ≢ ok true
evaluate_simple_condition-null_example =
    evaluate_simple_condition-null exact_match age_schema (Datum.null ∷ []) age_is_not age_null

escape_json-read_example :
    read_text plain (escape_json (codes "tab\t") ++ b'"' ∷ [])
    ≡ (if all_written (codes "tab\t") then some (codes "tab\t", []) else none)
escape_json-read_example = escape_json-read (codes "tab\t") []
