-- ===== src/Sql/Parser/Loops.antt =====
-- Lists, conditions and column modifiers: the loops of the parser and its recursion.
use dbms_project_sp.Base.{ℕ, zero, suc, ◌≤◌, ◌<◌, length, arith}
use dbms_project_sp.Sql.Token.{TokenType, Token, kw_and, kw_or}
use dbms_project_sp.Sql.Ast.{LogicalOp, Condition}
use dbms_project_sp.Sql.Cursor.{Parse, comma_list, comma_separated}
use dbms_project_sp.Sql.Conditions.{
  comparison_op, parse_comparison, chain, chain_all, parse_primary_with, parse_and_with,
  parse_or_with, parse_condition_within, parse_condition,
}
use dbms_project_sp.Sql.Parser.{Modifiers, modifiers, all_modifiers}
use dbms_project_sp.Sql.Parser.Total.{
  Total, Total-bind, leaf_rules, Total-match, Total-advance, Total-expect, Total-parse_operand,
  Total-parse_value,
}

module _ {A : Type 0} (p : Parse A) (element : (n : ℕ) → Total n p) where
  Total-comma_list : (fuel n : ℕ) → n < fuel → Total n (comma_list fuel p)
  unfolding comma_list
  Total-comma_list zero n l = elim l [ ]
  Total-comma_list (suc fuel) n l =
      let later : (m : ℕ) → m < n → Total m (comma_list fuel p) =
        λ m h. Total-comma_list fuel m (omega arith) in
      search (leaf_rules, Total-match, element, later) depth 9

  pub Total-comma_separated : {n : ℕ} → Total n (comma_separated p)
  unfolding comma_separated
  Total-comma_separated = record {
    at = λ ts l. (Total-comma_list (suc (length ts)) (length ts) (omega arith)).at ts (omega arith);
  }

Total-comparison_op : {n : ℕ} (t : Token) → Total n (comparison_op t)
unfolding comparison_op
Total-comparison_op t = search leaf_rules depth 12

Total-parse_comparison : {n : ℕ} → Total n parse_comparison
unfolding parse_comparison
Total-parse_comparison =
    search (leaf_rules, Total-comparison_op, Total-parse_operand, Total-expect) depth 12

module _ (kind : TokenType) (lop : LogicalOp) (operand : Parse Condition) where
  -- The operand is sure to end on at most `bound` tokens.
  Total-chain :
      (bound : ℕ)
      → ((m : ℕ) → m ≤ bound → Total m operand)
      → (fuel n : ℕ) → n ≤ bound
      → n < fuel
      → (c : Condition) → Total n (chain kind lop operand fuel c)
  unfolding chain
  Total-chain bound h zero n b l c = elim l [ ]
  Total-chain bound h (suc fuel) n b l c =
      let again : (m : ℕ) → m < n → Total m operand = λ m k. h m (omega arith) in
      let later : (m : ℕ) → m < n → (d : Condition) → Total m (chain kind lop operand fuel d) =
        λ m k d. Total-chain bound h fuel m (omega arith) (omega arith) d in
      search (leaf_rules, Total-match, again, later) depth 9

  Total-chain_all :
      (bound : ℕ)
      → ((m : ℕ) → m ≤ bound → Total m operand)
      → (n : ℕ) → n ≤ bound
      → (c : Condition) → Total n (chain_all kind lop operand c)
  unfolding chain_all
  Total-chain_all bound h n b c = record {
    at = λ ts l.
        (Total-chain bound h (suc (length ts)) (length ts) (omega arith) (omega arith) c).at ts
          (omega arith);
  }

Total-parse_primary_with :
    (n : ℕ) (condition : Parse Condition)
    → ((m : ℕ) → m < n → Total m condition)
    → Total n (parse_primary_with condition)
unfolding parse_primary_with
Total-parse_primary_with n condition h =
    search (leaf_rules, Total-match, Total-expect, Total-parse_comparison, h) depth 9

Total-parse_and_with :
    (n : ℕ) (primary : Parse Condition)
    → ((m : ℕ) → m ≤ n → Total m primary)
    → Total n (parse_and_with primary)
unfolding parse_and_with
Total-parse_and_with n primary h =
    Total-bind _ _ (h n (omega arith))
      (Total-chain_all kw_and LogicalOp.and primary n h n (omega arith))

Total-parse_or_with :
    (n : ℕ) (conjunction : Parse Condition)
    → ((m : ℕ) → m ≤ n → Total m conjunction)
    → Total n (parse_or_with conjunction)
unfolding parse_or_with
Total-parse_or_with n conjunction h =
    Total-bind _ _ (h n (omega arith))
      (Total-chain_all kw_or LogicalOp.or conjunction n h n (omega arith))

Total-parse_condition_within : (depth n : ℕ) → n < depth → Total n (parse_condition_within depth)
unfolding parse_condition_within
Total-parse_condition_within zero n l = elim l [ ]
Total-parse_condition_within (suc depth) n l = Total-parse_or_with n _ λ m h.
    Total-parse_and_with m _
      λ k g. Total-parse_primary_with k _ λ j f. Total-parse_condition_within depth j (omega arith)

pub Total-parse_condition : {n : ℕ} → Total n parse_condition
unfolding parse_condition
Total-parse_condition = record {
  at = λ ts l.
      (Total-parse_condition_within (suc (length ts)) (length ts) (omega arith)).at ts
        (omega arith);
}

Total-modifiers : (fuel n : ℕ) → n < fuel → (m : Modifiers) → Total n (modifiers fuel m)
unfolding modifiers
Total-modifiers zero n l m = elim l [ ]
Total-modifiers (suc fuel) n l m =
    let later : (k : ℕ) → k < n → (o : Modifiers) → Total k (modifiers fuel o) =
      λ k h o. Total-modifiers fuel k (omega arith) o in
    search (leaf_rules, Total-advance, Total-parse_value, later) depth 12

pub Total-all_modifiers : {n : ℕ} → Total n all_modifiers
unfolding all_modifiers
Total-all_modifiers = record {
  at = λ ts l. (Total-modifiers (suc (length ts)) (length ts) (omega arith) _).at ts (omega arith);
}
