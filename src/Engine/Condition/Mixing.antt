-- ===== src/Engine/Condition/Mixing.antt =====
-- Without parentheses, AND and OR in one condition may be grouped against their precedence.
use dbms_project_sp.Base.{
  ◌≡◌, refl, Bool, false, ◌&&◌, ◌||◌, List, [], ◌∷◌, ap, length, suc, ok, ◌∙◌,
}
use dbms_project_sp.Sql.Token.{Token, kw_and, kw_or}
use dbms_project_sp.Sql.Ast.{LogicalOp, Comparison, Condition, node, null, ref}
use dbms_project_sp.Sql.Cursor.{Parse, check}
use dbms_project_sp.Sql.Conditions.{
  is_between, simple, combine_conditions, chain_all, parse_primary_with, parse_and_with,
  parse_or_with, parse_condition_within, parse_condition,
}
use dbms_project_sp.Sql.Conditions.Formula.{
  token, op_kind, operand_token, upper_tokens, comparison_tokens, IsCanonical, Follows,
}
use dbms_project_sp.Sql.Conditions.RoundTrip.{
  chain_stop, chain_step, and_single, and_pair, primary_comparison,
}
use dbms_project_sp.Engine.Condition.{evaluate_condition}

-- a OR b AND c OR d
abbrev pub mixed_tokens :
    Comparison → Comparison → Comparison → Comparison → List Token → List Token
mixed_tokens a b c d rest = comparison_tokens a (
    token kw_or []
    ∷ comparison_tokens b
        (token kw_and [] ∷ comparison_tokens c (token kw_or [] ∷ comparison_tokens d rest)))

-- What is built for it: a chain in which the last OR hangs under the AND.
abbrev pub mixed_condition : Comparison → Comparison → Comparison → Comparison → Condition
mixed_condition a b c d =
    node a LogicalOp.or
      (ref
        (node b LogicalOp.and (ref (node c LogicalOp.or (ref (simple d)) null false)) null false))
      null false

combined :
    (a b c d : Comparison)
    → combine_conditions
        (combine_conditions
          (simple a)
          (combine_conditions (simple b) (simple c) LogicalOp.and)
          LogicalOp.or)
        (simple d)
        LogicalOp.or
      ≡ mixed_condition a b c d
unfolding combine_conditions
combined a b c d = refl

module _ (a b c d : Comparison) (wa : IsCanonical a) (wb : IsCanonical b) (wc : IsCanonical c)
    (wd : IsCanonical d) (rest : List Token) (f : Follows rest) (inner : Parse Condition) where
  abbrev primary : Parse Condition
  primary = parse_primary_with inner

  abbrev last_part : List Token
  last_part = comparison_tokens d rest

  abbrev middle_part : List Token
  middle_part =
      comparison_tokens b (token kw_and [] ∷ comparison_tokens c (token kw_or [] ∷ last_part))

  read_first :
      parse_and_with primary (mixed_tokens a b c d rest)
      ≡ ok (simple a, token kw_or [] ∷ middle_part)
  unfolding check
  read_first =
      and_single primary _ _ (simple a)
        (primary_comparison inner a (token kw_or [] ∷ middle_part) wa) refl

  read_middle :
      parse_and_with primary middle_part
      ≡ ok (combine_conditions (simple b) (simple c) LogicalOp.and, token kw_or [] ∷ last_part)
  unfolding check
  read_middle =
      and_pair primary middle_part (comparison_tokens c (token kw_or [] ∷ last_part))
        (token kw_or [] ∷ last_part) (simple b) (simple c) (primary_comparison inner b _ wb)
        (primary_comparison inner c _ wc) refl

  read_last : parse_and_with primary last_part ≡ ok (simple d, rest)
  read_last =
      and_single primary last_part rest (simple d) (primary_comparison inner d rest wd) f.no_and

  read_mixed :
      parse_or_with (parse_and_with primary) (mixed_tokens a b c d rest)
      ≡ ok (mixed_condition a b c d, rest)
  unfolding parse_or_with chain_all check
  read_mixed =
      let conjunction = parse_and_with primary in
      let pair = combine_conditions (simple b) (simple c) LogicalOp.and in
      let first = combine_conditions (simple a) pair LogicalOp.or in
      let behind : List Token =
        token (op_kind b.op) []
        ∷ operand_token b.right b.right_is_column
        ∷ upper_tokens (is_between b.op) b.right2 b.right2_is_column
            (token kw_and [] ∷ comparison_tokens c (token kw_or [] ∷ last_part)) in
      rw read_first (
        chain_step kw_or LogicalOp.or conjunction (simple a) (suc (length middle_part))
          (token kw_or []) middle_part _ pair refl read_middle
        ∙ chain_step kw_or LogicalOp.or conjunction first (length middle_part) (token kw_or [])
            last_part rest (simple d) refl read_last
        ∙ chain_stop kw_or LogicalOp.or conjunction
            (combine_conditions first (simple d) LogicalOp.or) (length behind) rest f.no_or
        ∙ ap (λ e. ok (e, rest)) (combined a b c d))

evaluate_mixed :
    (holds : Comparison → Bool) (a b c d : Comparison)
    → evaluate_condition {E = Unit {0}} (λ x. ok (holds x)) (mixed_condition a b c d)
      ≡ ok (holds a || (holds b && (holds c || holds d)))
unfolding evaluate_condition
evaluate_mixed holds a b c d = refl

-- For four comparisons, `a OR b AND c OR d` is executed as `a OR (b AND (c OR d))`, where the
-- precedence of AND over OR asks for `a OR (b AND c) OR d`; so a row for which only `d` holds is
-- not found.
pub parse_mixed :
    (holds : Comparison → Bool) (a b c d : Comparison) (rest : List Token)
    → IsCanonical a
    → IsCanonical b
    → IsCanonical c
    → IsCanonical d
    → Follows rest
    → (e : Condition) × (parse_condition (mixed_tokens a b c d rest) ≡ ok (e, rest))
      × (evaluate_condition {E = Unit {0}} (λ x. ok (holds x)) e
          ≡ ok (holds a || (holds b && (holds c || holds d))))
unfolding parse_condition parse_condition_within
parse_mixed holds a b c d rest wa wb wc wd f = (
  mixed_condition a b c d,
  read_mixed a b c d wa wb wc wd rest f
      (parse_condition_within (length (mixed_tokens a b c d rest))),
  evaluate_mixed holds a b c d,
)
