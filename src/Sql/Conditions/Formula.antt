-- ===== src/Sql/Conditions/Formula.antt =====
-- Conditions with every compound operand in parentheses: their tokens, and what the parser makes
-- of them.
use dbms_project_sp.Base.{ℕ, suc, ◌+◌, ◌≡◌, Bool, true, false, List, [], ◌∷◌, Bytes, ok, arith}
use dbms_project_sp.Sql.Token.{
  Token, TokenType, identifier, str_literal, kw_and, kw_or, kw_between, kw_like, op_eq, op_neq,
  op_lt, op_gt, op_lte, op_gte, lparen, rparen,
}
use dbms_project_sp.Sql.Ast.{
  Op, eq, neq, lt, gt, lte, gte, between, like, LogicalOp, Comparison, Condition,
}
use dbms_project_sp.Sql.Cursor.{check}
use dbms_project_sp.Sql.Conditions.{
  simple, parenthesize, is_between, combine_conditions, parse_comparison,
}

abbrev pub token : TokenType → Bytes → Token
token kind value = record { kind = kind; value = value; line = 1 }

-- A column by its name, a constant as a string.
abbrev pub operand_token : Bytes → Bool → Token
operand_token text true = token identifier text
operand_token text false = token str_literal text

abbrev pub op_kind : Op → TokenType
op_kind eq = op_eq
op_kind neq = op_neq
op_kind lt = op_lt
op_kind gt = op_gt
op_kind lte = op_lte
op_kind gte = op_gte
op_kind between = kw_between
op_kind like = kw_like

abbrev pub upper_tokens : Bool → Bytes → Bool → List Token → List Token
upper_tokens true text column rest = token kw_and [] ∷ operand_token text column ∷ rest
upper_tokens false text column rest = rest

-- The tokens of a comparison, in front of `rest`.
abbrev pub comparison_tokens : Comparison → List Token → List Token
comparison_tokens c rest =
    operand_token c.left c.left_is_column
    ∷ token (op_kind c.op) []
    ∷ operand_token c.right c.right_is_column
    ∷ upper_tokens (is_between c.op) c.right2 c.right2_is_column rest

-- A comparison has a second bound only where it is BETWEEN.
abbrev pub IsCanonical : Comparison → Type 0
IsCanonical c = is_between c.op ≡ false → (c.right2 ≡ []) × (c.right2_is_column ≡ false)

pub parse_comparison-tokens :
    (c : Comparison) (rest : List Token)
    → IsCanonical c
    → parse_comparison (comparison_tokens c rest) ≡ ok (simple c, rest)
unfolding parse_comparison
parse_comparison-tokens c rest h = ground (arith, h)

pub data Formula : Type 0 where
  atom : Comparison → Formula
  both either : Formula → Formula → Formula

abbrev pub opening : Bool → List Token → List Token
opening true ts = token lparen [] ∷ ts
opening false ts = ts

abbrev pub closing : Bool → List Token → List Token
closing true ts = token rparen [] ∷ ts
closing false ts = ts

-- The tokens in front of `rest`; the flag says whether a compound formula is put in parentheses,
-- as its operands are.
unfoldable pub formula_tokens : Bool → Formula → List Token → List Token
formula_tokens paren (atom c) rest = comparison_tokens c rest
formula_tokens paren (both l r) rest =
    opening paren
      (formula_tokens true l (token kw_and [] ∷ formula_tokens true r (closing paren rest)))
formula_tokens paren (either l r) rest =
    opening paren
      (formula_tokens true l (token kw_or [] ∷ formula_tokens true r (closing paren rest)))

abbrev pub grouped : Bool → Condition → Condition
grouped true c = parenthesize c
grouped false c = c

-- What the parser builds for them.
unfoldable pub formula_condition : Bool → Formula → Condition
formula_condition paren (atom c) = simple c
formula_condition paren (both l r) =
    grouped paren
      (combine_conditions (formula_condition true l) (formula_condition true r) LogicalOp.and)
formula_condition paren (either l r) =
    grouped paren
      (combine_conditions (formula_condition true l) (formula_condition true r) LogicalOp.or)

unfoldable pub depth : Formula → ℕ
depth (atom c) = 0
depth (both l r) = suc (depth l + depth r)
depth (either l r) = suc (depth l + depth r)

abbrev pub IsWellFormed : Formula → Type 0
IsWellFormed (atom c) = IsCanonical c
IsWellFormed (both l r) = IsWellFormed l × IsWellFormed r
IsWellFormed (either l r) = IsWellFormed l × IsWellFormed r

-- The tokens that follow do not go on with the condition.
pub record Follows (rest : List Token) : Type 0 where
  pub no_and : check kw_and rest ≡ false
  pub no_or : check kw_or rest ≡ false
