-- ===== src/Sql/Parser/Total.antt =====
-- The parser ends: no loop runs out of the rounds that the model gives it.
use dbms_project_sp.Base.{
  ℕ, suc, ◌≤◌, ◌<◌, ◌≢◌, Bool, true, false, List, [], ◌∷◌, length, Bytes, if◌then◌else◌, Bool-cases,
  inl, inr, Result, ok, err, arith, String, ◌&&◌, not,
}
use dbms_project_sp.Base.Int.{ℤ}
use dbms_project_sp.Base.Number.{NumberError, stoi}
use dbms_project_sp.Sql.Token.{TokenType, Token, same, end, identifier, int_literal, str_literal}
use dbms_project_sp.Sql.Ast.{SqlValue}
use dbms_project_sp.Sql.Cursor.{
  Parse, ParseError, empty_input, unexpected_token, expected_value, expected_operand,
  expected_comparison, expected_database_or_table, expected, unknown_type, bad_number, out_of_fuel,
  pure, throw, ◌>>=◌, peek, advance, check, checks, match, expect, parse_table_ref, parse_value,
  parse_operand, then_on, is_end, head_is_keyword, int_value,
}

abbrev pub Ends : {A : Type 0} → ℕ → Result ParseError (A × List Token) → Type 0
Ends n (ok (_, ts)) = length ts ≤ n
Ends n (err e) = e ≢ out_of_fuel

-- On at most `n` tokens the parser returns, with no more tokens left than it was given, or throws
-- an error of the program.
pub record Total {A : Type 0} (n : ℕ) (p : Parse A) : Type 0 where
  pub at : (ts : List Token) → length ts ≤ n → Ends (length ts) (p ts)

Ends-mono :
    {A : Type 0} (m n : ℕ) (r : Result ParseError (A × List Token)) → m ≤ n → Ends m r → Ends n r
Ends-mono m n (ok (_, ts)) l h = omega arith
Ends-mono m n (err e) l h = h

module _ {A B : Type 0} {n : ℕ} where
  Ends-then_on :
      (ts : List Token) (f : A → Parse B) (r : Result ParseError (A × List Token))
      → length ts ≤ n
      → Ends (length ts) r
      → ((a : A) → Total n (f a))
      → Ends (length ts) (then_on r f)
  Ends-then_on ts f (ok (a, us)) l h k =
      Ends-mono (length us) (length ts) (f a us) h ((k a).at us (omega arith))
  Ends-then_on ts f (err e) l h k = h

  pub Total-bind :
      (m : Parse A) (f : A → Parse B) → Total n m → ((a : A) → Total n (f a)) → Total n (m >>= f)
  Total-bind m f h k = record { at = λ ts l. Ends-then_on ts f (m ts) l (h.at ts l) k }

module _ {A : Type 0} {n : ℕ} where
  pub Total-pure : (a : A) → Total n (pure a)
  Total-pure a = record { at = λ ts l. omega arith }

  pub Total-throw : (e : ParseError) → e ≢ out_of_fuel → Total n (throw {A = A} e)
  Total-throw e h = record { at = λ ts l. h }

  pub Total-if : (b : Bool) (p q : Parse A) → Total n p → Total n q → Total n (if b then p else q)
  Total-if true p q hp hq = hp
  Total-if false p q hp hq = hq

  -- What follows `advance`, or `match` where it succeeds, has one token less.
  pub Total-advance :
      (f : Token → Parse A)
      → ((m : ℕ) → m < n → (t : Token) → Total m (f t))
      → Total n (advance >>= f)
  unfolding advance
  Total-advance f k = record { at = at }
    where
      at : (ts : List Token) → length ts ≤ n → Ends (length ts) ((advance >>= f) ts)
      at [] l = cc
      at (t ∷ ts) l = elim (Bool-cases (same t.kind end)) [
        | inl e ↦ rw e (λ h. cc h)
        | inr e ↦ rw e (
            Ends-mono (length ts) (suc (length ts)) (f t ts) (omega arith)
              ((k (length ts) (omega arith) t).at ts (omega arith)))
      ]

  pub Total-match :
      (kind : TokenType) (f : Bool → Parse A)
      → ((m : ℕ) → m < n → Total m (f true))
      → Total n (f false)
      → Total n (match kind >>= f)
  unfolding match
  Total-match kind f kt kf = record { at = at }
    where
      at : (ts : List Token) → length ts ≤ n → Ends (length ts) ((match kind >>= f) ts)
      at [] l = kf.at [] l
      at (t ∷ ts) l = elim (Bool-cases (check kind (t ∷ ts))) [
        | inl e ↦ rw e (
            Ends-mono (length ts) (suc (length ts)) (f true ts) (omega arith)
              ((kt (length ts) (omega arith)).at ts (omega arith)))
        | inr e ↦ rw e (kf.at (t ∷ ts) l)
      ]

module _ {n : ℕ} where
  pub Total-peek : Total n peek
  unfolding peek
  Total-peek = record { at = at }
    where
      at : (ts : List Token) → length ts ≤ n → Ends (length ts) (peek ts)
      at [] l = cc
      at (t ∷ ts) l = elim (Bool-cases (same t.kind end)) [
        | inl e ↦ rw e (λ h. cc h)
        | inr e ↦ rw e (omega arith)
      ]

  pub Total-advance_only : Total n advance
  unfolding advance
  Total-advance_only = record { at = at }
    where
      at : (ts : List Token) → length ts ≤ n → Ends (length ts) (advance ts)
      at [] l = cc
      at (t ∷ ts) l = elim (Bool-cases (same t.kind end)) [
        | inl e ↦ rw e (λ h. cc h)
        | inr e ↦ rw e (omega arith)
      ]

  pub Total-match_only : (kind : TokenType) → Total n (match kind)
  unfolding match
  Total-match_only kind = record { at = at }
    where
      at : (ts : List Token) → length ts ≤ n → Ends (length ts) (match kind ts)
      at [] l = omega arith
      at (t ∷ ts) l = elim (Bool-cases (check kind (t ∷ ts))) [
        | inl e ↦ rw e (omega arith)
        | inr e ↦ rw e (omega arith)
      ]

  pub Total-checks : (kind : TokenType) → Total n (checks kind)
  unfolding checks
  Total-checks kind = record { at = λ ts l. omega arith }

pub Ends-if :
    {A : Type 0} (m : ℕ) (b : Bool) (p q : Result ParseError (A × List Token))
    → Ends m p
    → Ends m q
    → Ends m (if b then p else q)
Ends-if m true p q hp hq = hp
Ends-if m false p q hp hq = hq

pub empty_input-ne : empty_input ≢ out_of_fuel
empty_input-ne h = cc

pub unexpected_token-ne : (t : Token) → unexpected_token t ≢ out_of_fuel
unexpected_token-ne t h = cc

pub expected_value-ne : (t : Token) → expected_value t ≢ out_of_fuel
expected_value-ne t h = cc

pub expected_operand-ne : (t : Token) → expected_operand t ≢ out_of_fuel
expected_operand-ne t h = cc

pub expected_comparison-ne : (t : Token) → expected_comparison t ≢ out_of_fuel
expected_comparison-ne t h = cc

pub expected_database_or_table-ne : (t : Token) → expected_database_or_table t ≢ out_of_fuel
expected_database_or_table-ne t h = cc

pub expected-ne : (c : String) (t : Token) → expected c t ≢ out_of_fuel
expected-ne c t h = cc

pub unknown_type-ne : (t : Token) → unknown_type t ≢ out_of_fuel
unknown_type-ne t h = cc

pub bad_number-ne : (e : NumberError) → bad_number e ≢ out_of_fuel
bad_number-ne e h = cc

pub ruleset leaf_rules = (
  Total-bind, Total-pure, Total-throw, Total-if, Total-peek, Total-checks, Total-advance_only,
  empty_input-ne, unexpected_token-ne, expected_value-ne, expected_operand-ne,
  expected_comparison-ne, expected_database_or_table-ne, expected-ne, unknown_type-ne,
  bad_number-ne,
)

pub Total-expect : {n : ℕ} (kind : TokenType) (context : String) → Total n (expect kind context)
unfolding expect
Total-expect {n} kind context = record {
  at = λ ts l.
      let other : Total n (peek >>= λ current. throw (expected context current)) =
        search leaf_rules in
      Ends-if (length ts) (check kind ts) (advance ts) _ (Total-advance_only.at ts l) (
        Ends-if (length ts) (same kind identifier && not (is_end ts) && head_is_keyword ts)
          (advance ts) _ (Total-advance_only.at ts l) (other.at ts l));
}

pub Total-parse_operand : {n : ℕ} → Total n parse_operand
unfolding parse_operand
Total-parse_operand = search leaf_rules depth 9

pub Total-parse_table_ref : {n : ℕ} → Total n parse_table_ref
unfolding parse_table_ref
Total-parse_table_ref = search (leaf_rules, Total-expect, Total-match) depth 9

int_value-Total : {n : ℕ} (r : Result NumberError (ℤ × Bytes)) → Total n (int_value r)
int_value-Total (ok (k, rest)) = Total-pure _
int_value-Total (err e) = Total-throw (bad_number e) (bad_number-ne e)

pub Total-parse_value : {n : ℕ} → Total n parse_value
unfolding parse_value
Total-parse_value {n} = search (leaf_rules, Total-match, plain) depth 9
  where
    number : (t : Token) → Total n (int_value (stoi t.value))
    number t = int_value-Total _

    plain : Total n (λ ts.
        if check int_literal ts
        then (advance >>= λ t. int_value (stoi t.value)) ts
        else if check str_literal ts
        then (advance >>= λ t. pure (SqlValue.str t.value)) ts
        else (peek >>= λ t. throw (expected_value t)) ts)
    plain = record {
      at = λ ts l.
          let a : Total n (advance >>= λ t. int_value (stoi t.value)) =
            search (leaf_rules, number) in
          let b : Total n (advance >>= λ t. pure (SqlValue.str t.value)) = search leaf_rules in
          let c : Total n (peek >>= λ t. throw {A = SqlValue} (expected_value t)) =
            search leaf_rules in
          Ends-if (length ts) (check int_literal ts) _ _ (a.at ts l)
            (Ends-if (length ts) (check str_literal ts) _ _ (b.at ts l) (c.at ts l));
    }
