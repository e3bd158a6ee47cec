-- ===== src/Sql/Conditions.antt =====
-- The condition grammar of server/parser/src/parser.cpp.
pub mod Formula
pub mod RoundTrip
use dbms_project_sp.Base.{ℕ, zero, suc, Bool, true, false, not, ◌&&◌, [], length, if◌then◌else◌}
use dbms_project_sp.Sql.Token.{
  TokenType, Token, same, kw_or, kw_and, kw_between, kw_like, op_eq, op_neq, op_lt, op_gt, op_lte,
  op_gte, lparen, rparen,
}
use dbms_project_sp.Sql.Ast.{
  Op, eq, neq, lt, gt, lte, gte, between, like, LogicalOp, Comparison, Condition, node, Link, null,
  ref,
}
use dbms_project_sp.Sql.Cursor.{
  Parse, expected_comparison, out_of_fuel, pure, throw, ◌>>=◌, ◌>>◌, peek, advance, match, expect,
  parse_operand,
}

-- A comparison that was never written: the simple part of a node that has a `leftTree`.
abbrev pub unset : Comparison
unset = record {
  left = [];
  left_is_column = false;
  op = eq;
  right = [];
  right_is_column = false;
  right2 = [];
  right2_is_column = false;
}

abbrev pub simple : Comparison → Condition
simple c = node c LogicalOp.none null null false

-- `cond.isParenthesized = true`
abbrev pub parenthesize : Condition → Condition
parenthesize (node c lop next tree paren) = node c lop next tree true

abbrev is_null : Link → Bool
is_null null = true
is_null (ref c) = false

unfoldable pub same_logical : LogicalOp → LogicalOp → Bool
same_logical LogicalOp.none LogicalOp.none = true
same_logical LogicalOp.and LogicalOp.and = true
same_logical LogicalOp.or LogicalOp.or = true
same_logical _ _ = false

-- The walk to the last node of the chain of `next`, which then gets `op` and `right`.
unfoldable pub append_last : LogicalOp → Condition → Condition → Condition
append_last lop right (node c l null tree paren) = node c lop (ref right) tree paren
append_last lop right (node c l (ref n) tree paren) =
    node c l (ref (append_last lop right n)) tree paren

unfoldable pub combine_conditions : Condition → Condition → LogicalOp → Condition
unfolding same_logical append_last
combine_conditions (node c l next tree paren) right lop =
    if is_null next && is_null tree && not paren
    then node c lop (ref right) null false
    else if not paren && is_null tree && not (is_null next) && same_logical l lop
    then append_last lop right (node c l next tree paren)
    else node unset lop (ref right) (ref (node c l next tree paren)) false

-- The `switch` on the token behind the first operand.
unfoldable pub comparison_op : Token → Parse Op
unfolding same
comparison_op t =
    if same t.kind op_eq
    then pure eq
    else if same t.kind op_neq
    then pure neq
    else if same t.kind op_lt
    then pure lt
    else if same t.kind op_gt
    then pure gt
    else if same t.kind op_lte
    then pure lte
    else if same t.kind op_gte
    then pure gte
    else if same t.kind kw_between
    then pure between
    else if same t.kind kw_like
    then pure like
    else throw (expected_comparison t)

abbrev pub is_between : Op → Bool
is_between between = true
is_between _ = false

-- The last part of `parsePrimaryCondition`: operand, operator, operand or two.
unfoldable pub parse_comparison : Parse Condition
unfolding comparison_op parse_operand peek advance expect
parse_comparison = do
  (left, left_is_column) ← parse_operand
  token ← peek
  op ← comparison_op token
  advance
  if is_between op
      then (do
        (right, right_is_column) ← parse_operand
        expect kw_and "AND in BETWEEN"
        (right2, right2_is_column) ← parse_operand
        pure (
            simple (record {
              left = left;
              left_is_column = left_is_column;
              op = op;
              right = right;
              right_is_column = right_is_column;
              right2 = right2;
              right2_is_column = right2_is_column;
            })))
      else (do
        (right, right_is_column) ← parse_operand
        pure (
            simple (record {
              left = left;
              left_is_column = left_is_column;
              op = op;
              right = right;
              right_is_column = right_is_column;
              right2 = [];
              right2_is_column = false;
            })))

-- `while (match(…)) { right = operand(); cond = combine(cond, right, op); }`
unfoldable pub chain : TokenType → LogicalOp → Parse Condition → ℕ → Condition → Parse Condition
unfolding match combine_conditions
chain kind lop operand zero cond = throw out_of_fuel
chain kind lop operand (suc fuel) cond = do
  again ← match kind
  if again
      then (do right ← operand; chain kind lop operand fuel (combine_conditions cond right lop))
      else pure cond

-- `parsePrimaryCondition` over `parseCondition`.
unfoldable pub parse_primary_with : Parse Condition → Parse Condition
unfolding match expect parse_comparison
parse_primary_with condition = do
  open_paren ← match lparen
  if open_paren
      then (do cond ← condition; expect rparen "')'"; pure (parenthesize cond))
      else parse_comparison

-- The loops get as many rounds as there are tokens left, and one more.
unfoldable pub chain_all : TokenType → LogicalOp → Parse Condition → Condition → Parse Condition
unfolding chain
chain_all kind lop operand cond ts = chain kind lop operand (suc (length ts)) cond ts

unfoldable pub parse_and_with : Parse Condition → Parse Condition
unfolding chain_all
parse_and_with primary = do cond ← primary; chain_all kw_and LogicalOp.and primary cond

unfoldable pub parse_or_with : Parse Condition → Parse Condition
unfolding chain_all
parse_or_with conjunction = do cond ← conjunction; chain_all kw_or LogicalOp.or conjunction cond

-- `parseCondition`, with the depth of parentheses that it may go down to.
unfoldable pub parse_condition_within : ℕ → Parse Condition
unfolding parse_or_with parse_and_with parse_primary_with
parse_condition_within zero = throw out_of_fuel
parse_condition_within (suc depth) =
    parse_or_with (parse_and_with (parse_primary_with (parse_condition_within depth)))

-- Each parenthesis is a token, so the tokens left bound the depth.
unfoldable pub parse_condition : Parse Condition
unfolding parse_condition_within
parse_condition ts = parse_condition_within (suc (length ts)) ts
