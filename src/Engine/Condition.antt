-- ===== src/Engine/Condition.antt =====
-- `DbmsQueryEngine::evaluate_condition` of executor/src/query_engine.cpp, over any way to evaluate
-- a comparison, which may throw.
pub mod Combine
pub mod Meaning
pub mod Mixing
use dbms_project_sp.Base.{Bool, false, ◌&&◌, ◌||◌, Result, ok, ◌>>=◌}
use dbms_project_sp.Sql.Ast.{LogicalOp, and, or, Comparison, Condition, node, Link, null, ref}

-- Where a `leftTree` stands, every operator but AND is taken for OR.
abbrev pub join_tree : LogicalOp → Bool → Bool → Bool
join_tree and left right = left && right
join_tree _ left right = left || right

abbrev pub join_next : LogicalOp → Bool → Bool → Bool
join_next and current next = current && next
join_next or current next = current || next
join_next _ current next = current

-- Both sides are evaluated, whatever the first gives.
unfoldable pub evaluate_condition :
    {E : Type 0} → (Comparison → Result E Bool) → Condition → Result E Bool
evaluate_condition simple (node c lop null (ref tree) paren) = do
  left ← evaluate_condition simple tree
  ok (join_tree lop left false)
evaluate_condition simple (node c lop (ref next) (ref tree) paren) = do
  left ← evaluate_condition simple tree
  right ← evaluate_condition simple next
  ok (join_tree lop left right)
evaluate_condition simple (node c lop null null paren) = simple c
evaluate_condition simple (node c lop (ref next) null paren) = do
  current ← simple c
  rest ← evaluate_condition simple next
  ok (join_next lop current rest)
