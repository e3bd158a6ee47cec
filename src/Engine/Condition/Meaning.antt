-- ===== src/Engine/Condition/Meaning.antt =====
-- A condition whose compound operands are in parentheses is executed as it is written.
use dbms_project_sp.Base.{
  ◌≡◌, refl, Bool, true, false, ◌&&◌, ◌||◌, inl, inr, List, Result, ok, ◌>>=◌, ◌∙◌,
}
use dbms_project_sp.Sql.Token.{Token}
use dbms_project_sp.Sql.Ast.{LogicalOp, Comparison, Condition, node, null, ref}
use dbms_project_sp.Sql.Conditions.{combine_conditions, parse_condition}
use dbms_project_sp.Sql.Conditions.Formula.{
  Formula, atom, both, either, formula_tokens, formula_condition, grouped, IsWellFormed, Follows,
}
use dbms_project_sp.Sql.Conditions.RoundTrip.{parse_condition-formula}
use dbms_project_sp.Engine.Condition.{evaluate_condition}
use dbms_project_sp.Engine.Condition.Combine.{
  IsBinary, walks, joined, evaluate_simple, combine-joined,
}

-- What a formula says, its parts evaluated from left to right, both always.
pub meaning : {E : Type 0} → (Comparison → Result E Bool) → Formula → Result E Bool
meaning simple (atom c) = simple c
meaning simple (both l r) = do a ← meaning simple l; b ← meaning simple r; ok (a && b)
meaning simple (either l r) = do a ← meaning simple l; b ← meaning simple r; ok (a || b)

walks-grouped : (lop : LogicalOp) (c : Condition) → walks lop (grouped true c) ≡ false
walks-grouped lop (node c l next null paren) = refl
walks-grouped lop (node c l next (ref t) paren) = refl

-- The parser never walks into an operand of a formula.
walks_operand : (lop : LogicalOp) (f : Formula) → walks lop (formula_condition true f) ≡ false
unfolding formula_condition
walks_operand lop (atom c) = refl
walks_operand lop (both f g) = walks-grouped lop _
walks_operand lop (either f g) = walks-grouped lop _

module _ {E : Type 0} (simple : Comparison → Result E Bool) where
  evaluate-grouped :
      (paren : Bool) (c : Condition)
      → evaluate_condition simple (grouped paren c) ≡ evaluate_condition simple c
  unfolding evaluate_condition
  evaluate-grouped false c = refl
  evaluate-grouped true (node c l null null p) = refl
  evaluate-grouped true (node c l null (ref t) p) = refl
  evaluate-grouped true (node c l (ref n) null p) = refl
  evaluate-grouped true (node c l (ref n) (ref t) p) = refl

  evaluate-pair :
      (lop : LogicalOp) (f g : Formula)
      → IsBinary lop
      → evaluate_condition simple
          (combine_conditions (formula_condition true f) (formula_condition true g) lop)
        ≡ joined lop
            (evaluate_condition simple (formula_condition true f))
            (evaluate_condition simple (formula_condition true g))
  evaluate-pair lop f g b =
      combine-joined simple lop (formula_condition true f) (formula_condition true g) b
        (λ h. cc (h, walks_operand lop f))

  evaluate-formula :
      (paren : Bool) (f : Formula)
      → evaluate_condition simple (formula_condition paren f) ≡ meaning simple f
  unfolding formula_condition meaning
  evaluate-formula paren (atom c) = evaluate_simple simple c LogicalOp.none false
  evaluate-formula paren (both f g) =
      evaluate-grouped paren _
      ∙ evaluate-pair LogicalOp.and f g (inl refl)
      ∙ rw (evaluate-formula true f, evaluate-formula true g)
  evaluate-formula paren (either f g) =
      evaluate-grouped paren _
      ∙ evaluate-pair LogicalOp.or f g (inr refl)
      ∙ rw (evaluate-formula true f, evaluate-formula true g)

-- A condition whose compound operands are written in parentheses means to the executor what it
-- says: its tokens, with behind them what does not go on with AND or OR, are parsed to a condition
-- whose value, or whose exception, is that of the formula, for every way to evaluate comparisons.
pub parse-meaning :
    {E : Type 0} (simple : Comparison → Result E Bool) (f : Formula) (rest : List Token)
    → IsWellFormed f
    → Follows rest
    → (c : Condition) × (parse_condition (formula_tokens false f rest) ≡ ok (c, rest))
      × (evaluate_condition simple c ≡ meaning simple f)
parse-meaning simple f rest w h =
    (formula_condition false f, parse_condition-formula f rest w h, evaluate-formula simple false f)
