-- ===== src/Engine/Condition/Combine.antt =====
-- When `combineConditions` joins the meaning of two conditions, and when it does not.
use dbms_project_sp.Base.{
  ◌≡◌, refl, Bool, true, false, ◌⊎◌, inl, inr, Result, ok, err, ◌>>=◌, arith, if◌then◌else◌,
  Bool-cases,
}
use dbms_project_sp.Sql.Ast.{LogicalOp, and, or, Comparison, Condition, node, null, ref}
use dbms_project_sp.Sql.Conditions.{unset, append_last, combine_conditions, same_logical}
use dbms_project_sp.Engine.Condition.{join_next, evaluate_condition}

-- AND and OR.
abbrev pub IsBinary : LogicalOp → Type 0
IsBinary lop = (lop ≡ and) ⊎ (lop ≡ or)

-- Along the chain of `next` every operator is `lop`, and no node has a `leftTree`.
abbrev pub IsUniform : LogicalOp → Condition → Type 0
IsUniform lop (node c l null tree paren) = tree ≡ null
IsUniform lop (node c l (ref next) tree paren) = (tree ≡ null) × (l ≡ lop) × IsUniform lop next

-- The test under which `combineConditions` walks to the end of the chain of `left`.
abbrev pub walks : LogicalOp → Condition → Bool
walks lop (node c l next null false) = elim next [ null ↦ false | ref _ ↦ same_logical l lop ]
walks lop (node c l next tree paren) = false

-- Two results of conditions, joined in their order.
abbrev pub joined : {E : Type 0} → LogicalOp → Result E Bool → Result E Bool → Result E Bool
joined lop left right = do a ← left; b ← right; ok (join_next lop a b)

joined_assoc :
    {E : Type 0} (lop : LogicalOp) (m n k : Result E Bool)
    → IsBinary lop
    → joined lop m (joined lop n k) ≡ joined lop (joined lop m n) k
joined_assoc lop (err e) n k h = refl
joined_assoc lop (ok x) (err e) k h = refl
joined_assoc lop (ok x) (ok y) (err e) h = refl
joined_assoc lop (ok x) (ok y) (ok z) h = ground arith

module _ {E : Type 0} (simple : Comparison → Result E Bool) where
  pub evaluate_next :
      (c : Comparison) (lop : LogicalOp) (next : Condition) (paren : Bool)
      → evaluate_condition simple (node c lop (ref next) null paren)
        ≡ joined lop (simple c) (evaluate_condition simple next)
  unfolding evaluate_condition
  evaluate_next c lop next paren = refl

  evaluate_tree :
      (c : Comparison) (lop : LogicalOp) (tree next : Condition) (paren : Bool)
      → IsBinary lop
      → evaluate_condition simple (node c lop (ref next) (ref tree) paren)
        ≡ joined lop (evaluate_condition simple tree) (evaluate_condition simple next)
  evaluate_tree c and tree next paren h = unfold evaluate_condition in refl
  evaluate_tree c or tree next paren h = unfold evaluate_condition in refl
  evaluate_tree c LogicalOp.none tree next paren (inl e) = cc e
  evaluate_tree c LogicalOp.none tree next paren (inr e) = cc e

  pub evaluate_simple :
      (c : Comparison) (lop : LogicalOp) (paren : Bool)
      → evaluate_condition simple (node c lop null null paren) ≡ simple c
  unfolding evaluate_condition
  evaluate_simple c lop paren = refl

  append_next :
      (lop : LogicalOp) (c : Comparison) (l : LogicalOp) (next : Condition) (paren : Bool)
      (right : Condition)
      → append_last lop right (node c l (ref next) null paren)
        ≡ node c l (ref (append_last lop right next)) null paren
  unfolding append_last
  append_next lop c l next paren right = refl

  append_last-joined :
      (lop : LogicalOp) (left right : Condition)
      → IsBinary lop
      → IsUniform lop left
      → evaluate_condition simple (append_last lop right left)
        ≡ joined lop (evaluate_condition simple left) (evaluate_condition simple right)
  append_last-joined lop (node c l null null paren) right b u =
      unfold append_last in rw (evaluate_next, evaluate_simple)
  append_last-joined lop (node c l null (ref t) paren) right b u = cc u
  append_last-joined lop (node c l (ref next) (ref t) paren) right b u = cc (u.0)
  append_last-joined lop (node c l (ref next) null paren) right b u =
      rw
        (
          append_next lop c l next paren right,
          evaluate_next c l (append_last lop right next) paren,
          evaluate_next c l next paren,
          append_last-joined lop next right b u.2,
          u.1,
        )
        (joined_assoc lop _ _ _ b)

  combine_walk :
      (lop : LogicalOp) (c : Comparison) (l : LogicalOp) (next right : Condition)
      → combine_conditions (node c l (ref next) null false) right lop ≡ (
          if same_logical l lop
          then append_last lop right (node c l (ref next) null false)
          else node unset lop (ref right) (ref (node c l (ref next) null false)) false)
  unfolding combine_conditions
  combine_walk lop c l next right = refl

  -- `combineConditions` joins the meanings of the two conditions wherever it makes a new node, and
  -- where it walks along a uniform chain.
  pub combine-joined :
      (lop : LogicalOp) (left right : Condition)
      → IsBinary lop
      → (walks lop left ≡ true → IsUniform lop left)
      → evaluate_condition simple (combine_conditions left right lop)
        ≡ joined lop (evaluate_condition simple left) (evaluate_condition simple right)
  combine-joined lop (node c l null null false) right b u =
      unfold combine_conditions in rw (evaluate_next, evaluate_simple)
  combine-joined lop (node c l null null true) right b u =
      unfold combine_conditions in evaluate_tree unset lop _ right false b
  combine-joined lop (node c l null (ref t) false) right b u =
      unfold combine_conditions in evaluate_tree unset lop _ right false b
  combine-joined lop (node c l null (ref t) true) right b u =
      unfold combine_conditions in evaluate_tree unset lop _ right false b
  combine-joined lop (node c l (ref n) (ref t) false) right b u =
      unfold combine_conditions in evaluate_tree unset lop _ right false b
  combine-joined lop (node c l (ref n) tree true) right b u =
      unfold combine_conditions in evaluate_tree unset lop _ right false b
  combine-joined lop (node c l (ref n) null false) right b u =
      rw (combine_walk lop c l n right) (elim (Bool-cases (same_logical l lop)) [
        | inl e ↦ rw e (append_last-joined lop (node c l (ref n) null false) right b (u e))
        | inr e ↦ rw e (evaluate_tree unset lop (node c l (ref n) null false) right false b)
      ])
