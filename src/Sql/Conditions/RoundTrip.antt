-- ===== src/Sql/Conditions/RoundTrip.antt =====
-- The parser reads a condition whose compound operands are in parentheses as it was written.
use dbms_project_sp.Base.{
  ℕ, zero, suc, ◌+◌, ◌<◌, ◌≤◌, ◌≡◌, refl, ◌∙◌, Bool, true, false, List, [], ◌∷◌, length, Bytes, ok,
  arith,
}
use dbms_project_sp.Sql.Token.{Token, TokenType, kw_and, kw_or, lparen, rparen}
use dbms_project_sp.Sql.Ast.{LogicalOp, Comparison, Condition}
use dbms_project_sp.Sql.Cursor.{Parse, check, match, expect}
use dbms_project_sp.Sql.Conditions.{
  is_between, simple, parenthesize, combine_conditions, chain, chain_all, parse_primary_with,
  parse_and_with, parse_or_with, parse_condition_within, parse_condition,
}
use dbms_project_sp.Sql.Conditions.Formula.{
  Formula, atom, both, either, token, comparison_tokens, parse_comparison-tokens, formula_tokens,
  formula_condition, depth, IsCanonical, operand_token, op_kind, upper_tokens, IsWellFormed,
  Follows,
}

pub match-true :
    (kind : TokenType) (t : Token) (ts : List Token)
    → check kind (t ∷ ts) ≡ true
    → match kind (t ∷ ts) ≡ ok (true, ts)
unfolding match
match-true kind t ts h = rw h

match-false :
    (kind : TokenType) (ts : List Token) → check kind ts ≡ false → match kind ts ≡ ok (false, ts)
unfolding match
match-false kind ts h = rw h

module _ (kind : TokenType) (lop : LogicalOp) (operand : Parse Condition) (c : Condition) where
  pub chain_stop :
      (fuel : ℕ) (us : List Token)
      → check kind us ≡ false
      → chain kind lop operand (suc fuel) c us ≡ ok (c, us)
  unfolding chain
  chain_stop fuel us h = rw (match-false kind us h)

  chain_all_stop :
      (us : List Token) → check kind us ≡ false → chain_all kind lop operand c us ≡ ok (c, us)
  unfolding chain_all
  chain_all_stop us h = chain_stop (length us) us h

module _ (kind : TokenType) (lop : LogicalOp) (operand : Parse Condition) (c : Condition) where
  pub chain_step :
      (fuel : ℕ) (t : Token) (vs us : List Token) (e : Condition)
      → check kind (t ∷ vs) ≡ true
      → operand vs ≡ ok (e, us)
      → chain kind lop operand (suc fuel) c (t ∷ vs)
        ≡ chain kind lop operand fuel (combine_conditions c e lop) us
  unfolding chain
  chain_step fuel t vs us e h p = rw (match-true kind t vs h, p)

  chain_all_one :
      (t : Token) (vs us : List Token) (e : Condition)
      → check kind (t ∷ vs) ≡ true
      → operand vs ≡ ok (e, us)
      → check kind us ≡ false
      → chain_all kind lop operand c (t ∷ vs) ≡ ok (combine_conditions c e lop, us)
  unfolding chain_all
  chain_all_one t vs us e h p k =
      chain_step (length (t ∷ vs)) t vs us e h p
      ∙ (chain_stop kind lop operand (combine_conditions c e lop) (length vs) us k)

module _ (primary : Parse Condition) where
  pub and_single :
      (ts us : List Token) (c : Condition)
      → primary ts ≡ ok (c, us)
      → check kw_and us ≡ false
      → parse_and_with primary ts ≡ ok (c, us)
  unfolding parse_and_with
  and_single ts us c p h = rw p (chain_all_stop kw_and LogicalOp.and primary c us h)

  pub and_pair :
      (ts vs us : List Token) (c e : Condition)
      → primary ts ≡ ok (c, token kw_and [] ∷ vs)
      → primary vs ≡ ok (e, us)
      → check kw_and us ≡ false
      → parse_and_with primary ts ≡ ok (combine_conditions c e LogicalOp.and, us)
  unfolding parse_and_with check
  and_pair ts vs us c e p q h =
      rw p (chain_all_one kw_and LogicalOp.and primary c (token kw_and []) vs us e refl q h)

module _ (conjunction : Parse Condition) where
  or_single :
      (ts us : List Token) (c : Condition)
      → conjunction ts ≡ ok (c, us)
      → check kw_or us ≡ false
      → parse_or_with conjunction ts ≡ ok (c, us)
  unfolding parse_or_with
  or_single ts us c p h = rw p (chain_all_stop kw_or LogicalOp.or conjunction c us h)

  or_pair :
      (ts vs us : List Token) (c e : Condition)
      → conjunction ts ≡ ok (c, token kw_or [] ∷ vs)
      → conjunction vs ≡ ok (e, us)
      → check kw_or us ≡ false
      → parse_or_with conjunction ts ≡ ok (combine_conditions c e LogicalOp.or, us)
  unfolding parse_or_with check
  or_pair ts vs us c e p q h =
      rw p (chain_all_one kw_or LogicalOp.or conjunction c (token kw_or []) vs us e refl q h)

-- The parser of operands below parentheses to some depth reads `f` whatever follows.
abbrev Reads : ℕ → Formula → Type 0
Reads d f =
    (rest : List Token)
    → parse_primary_with (parse_condition_within d) (formula_tokens true f rest)
      ≡ ok (formula_condition true f, rest)

match_lparen_operand :
    (text : Bytes) (column : Bool) (ts : List Token)
    → check lparen (operand_token text column ∷ ts) ≡ false
unfolding check
match_lparen_operand text true ts = refl
match_lparen_operand text false ts = refl

pub primary_comparison :
    (condition : Parse Condition) (c : Comparison) (rest : List Token)
    → IsCanonical c
    → parse_primary_with condition (comparison_tokens c rest) ≡ ok (simple c, rest)
unfolding parse_primary_with
primary_comparison condition c rest w =
    let tail =
      token (op_kind c.op) []
      ∷ operand_token c.right c.right_is_column
      ∷ upper_tokens (is_between c.op) c.right2 c.right2_is_column rest in
    rw
      (match-false lparen (comparison_tokens c rest)
        (match_lparen_operand c.left c.left_is_column tail))
      (parse_comparison-tokens c rest w)

Reads-atom : (d : ℕ) (c : Comparison) → IsCanonical c → Reads d (atom c)
unfolding formula_tokens formula_condition
Reads-atom d c w rest = primary_comparison (parse_condition_within d) c rest w

module _ (d : ℕ) (l r : Formula) (reads_l : Reads d l) (reads_r : Reads d r) where
  within_both :
      (rest : List Token)
      → Follows rest
      → parse_condition_within (suc d) (formula_tokens false (both l r) rest)
        ≡ ok (formula_condition false (both l r), rest)
  unfolding parse_condition_within formula_tokens formula_condition
  within_both rest f =
      let primary = parse_primary_with (parse_condition_within d) in
      let back = formula_tokens true r rest in
      let whole = formula_tokens true l (token kw_and [] ∷ back) in
      let c = formula_condition true l in
      let e = formula_condition true r in
      or_single (parse_and_with primary) whole rest (combine_conditions c e LogicalOp.and)
        (and_pair primary whole back rest c e (reads_l _) (reads_r rest) f.no_and) f.no_or

  within_either :
      (rest : List Token)
      → Follows rest
      → parse_condition_within (suc d) (formula_tokens false (either l r) rest)
        ≡ ok (formula_condition false (either l r), rest)
  unfolding parse_condition_within formula_tokens formula_condition check
  within_either rest f =
      let primary = parse_primary_with (parse_condition_within d) in
      let back = formula_tokens true r rest in
      let middle = token kw_or [] ∷ back in
      let whole = formula_tokens true l middle in
      let c = formula_condition true l in
      let e = formula_condition true r in
      or_pair (parse_and_with primary) whole back rest c e
        (and_single primary whole middle c (reads_l _) refl)
        (and_single primary back rest e (reads_r rest) f.no_and) f.no_or

rparen-Follows : (rest : List Token) → Follows (token rparen [] ∷ rest)
unfolding check
rparen-Follows rest = record { no_and = refl; no_or = refl }

-- A condition in parentheses, read as an operand.
primary_parens :
    (condition : Parse Condition) (ts rest : List Token) (c : Condition)
    → condition ts ≡ ok (c, token rparen [] ∷ rest)
    → parse_primary_with condition (token lparen [] ∷ ts) ≡ ok (parenthesize c, rest)
unfolding parse_primary_with expect
primary_parens condition ts rest c h = rw h

module _ (d : ℕ) (f g : Formula) (rest : List Token) where
  both_parens :
      parse_condition_within (suc d) (formula_tokens false (both f g) (token rparen [] ∷ rest))
        ≡ ok (formula_condition false (both f g), token rparen [] ∷ rest)
      → parse_primary_with (parse_condition_within (suc d)) (formula_tokens true (both f g) rest)
        ≡ ok (formula_condition true (both f g), rest)
  unfolding formula_tokens formula_condition
  both_parens h =
      primary_parens (parse_condition_within (suc d)) _ rest (formula_condition false (both f g)) h

  either_parens :
      parse_condition_within (suc d) (formula_tokens false (either f g) (token rparen [] ∷ rest))
        ≡ ok (formula_condition false (either f g), token rparen [] ∷ rest)
      → parse_primary_with (parse_condition_within (suc d)) (formula_tokens true (either f g) rest)
        ≡ ok (formula_condition true (either f g), rest)
  unfolding formula_tokens formula_condition
  either_parens h =
      primary_parens (parse_condition_within (suc d)) _ rest (formula_condition false (either f g))
        h

Reads-formula : (f : Formula) (d : ℕ) → depth f ≤ d → IsWellFormed f → Reads d f
unfolding depth
Reads-formula (atom c) d l w = Reads-atom d c w
Reads-formula (both f g) zero l w = absurd (omega arith)
Reads-formula (either f g) zero l w = absurd (omega arith)
Reads-formula (both f g) (suc d) l w =
    let inner =
      within_both d f g (Reads-formula f d (omega arith) w.0)
        (Reads-formula g d (omega arith) w.1) in
    λ rest. both_parens d f g rest (inner (token rparen [] ∷ rest) (rparen-Follows rest))
Reads-formula (either f g) (suc d) l w =
    let inner =
      within_either d f g (Reads-formula f d (omega arith) w.0)
        (Reads-formula g d (omega arith) w.1) in
    λ rest. either_parens d f g rest (inner (token rparen [] ∷ rest) (rparen-Follows rest))

comparison_length :
    (c : Comparison) (rest : List Token) → 0 + length rest < length (comparison_tokens c rest)
comparison_length c rest = ground arith

within_atom :
    (d : ℕ) (c : Comparison) (rest : List Token)
    → IsCanonical c
    → Follows rest
    → parse_condition_within (suc d) (formula_tokens false (atom c) rest)
      ≡ ok (formula_condition false (atom c), rest)
unfolding parse_condition_within formula_tokens formula_condition
within_atom d c rest w h =
    let primary = parse_primary_with (parse_condition_within d) in
    let ts = comparison_tokens c rest in
    or_single (parse_and_with primary) ts rest (simple c)
      (and_single primary ts rest (simple c)
        (primary_comparison (parse_condition_within d) c rest w) h.no_and)
      h.no_or

depth-le-length :
    (paren : Bool) (f : Formula) (rest : List Token)
    → depth f + length rest < length (formula_tokens paren f rest)
unfolding depth formula_tokens
depth-le-length paren (atom c) rest = comparison_length c rest
depth-le-length true (both f g) rest = omega (
  arith,
  depth-le-length true f (token kw_and [] ∷ formula_tokens true g (token rparen [] ∷ rest)),
  depth-le-length true g (token rparen [] ∷ rest),
)
depth-le-length false (both f g) rest = omega (
  arith,
  depth-le-length true f (token kw_and [] ∷ formula_tokens true g rest),
  depth-le-length true g rest,
)
depth-le-length true (either f g) rest = omega (
  arith,
  depth-le-length true f (token kw_or [] ∷ formula_tokens true g (token rparen [] ∷ rest)),
  depth-le-length true g (token rparen [] ∷ rest),
)
depth-le-length false (either f g) rest = omega (
  arith,
  depth-le-length true f (token kw_or [] ∷ formula_tokens true g rest),
  depth-le-length true g rest,
)

condition_at_depth :
    (f : Formula) (rest : List Token) (d : ℕ)
    → depth f ≤ suc d
    → IsWellFormed f
    → Follows rest
    → parse_condition_within (suc d) (formula_tokens false f rest)
      ≡ ok (formula_condition false f, rest)
unfolding depth
condition_at_depth (both f g) rest d l w h =
    within_both d f g (Reads-formula f d (omega arith) w.0) (Reads-formula g d (omega arith) w.1)
      rest h
condition_at_depth (either f g) rest d l w h =
    within_either d f g (Reads-formula f d (omega arith) w.0) (Reads-formula g d (omega arith) w.1)
      rest h
condition_at_depth (atom c) rest d l w h = within_atom d c rest w h

-- A condition whose compound operands are written in parentheses is read back, whatever follows
-- that does not go on with AND or OR: the parser returns the condition of the formula and leaves
-- just what follows.
pub parse_condition-formula :
    (f : Formula) (rest : List Token)
    → IsWellFormed f
    → Follows rest
    → parse_condition (formula_tokens false f rest) ≡ ok (formula_condition false f, rest)
unfolding parse_condition
parse_condition-formula f rest w h =
    condition_at_depth f rest (length (formula_tokens false f rest))
      (omega (arith, depth-le-length false f rest)) w h
