-- ===== src/Engine/Candidates/Literal.antt =====
-- The constant of a comparison as a key of an index, and as an operand.
use dbms_project_sp.Base.{
  ◌≡◌, refl, true, false, [], ◌∷◌, Bytes, bytes_eq, codes, arith, Bool-cases, inl, inr, Result, ok,
  err,
}
use dbms_project_sp.Base.Int.{ℤ}
use dbms_project_sp.Base.Number.{NumberError, stoll}
use dbms_project_sp.Storage.Datum.{Datum, DataType, compare, matches}
use dbms_project_sp.Engine.Comparison.{constant, number_or_text, is_valid}
use dbms_project_sp.Engine.Candidates.{int_key, typed_key, parse_literal_for_column}

str_key-number :
    (s : Bytes) (r : Result NumberError (ℤ × Bytes)) (text : Bytes)
    → is_valid (compare (Datum.str s) (number_or_text r text)) ≡ true
    → number_or_text r text ≡ Datum.str text
unfolding compare
str_key-number s (ok (m, [])) text v = absurd (ground arith)
str_key-number s (ok (m, c ∷ rest)) text v = refl
str_key-number s (err e) text v = refl

compare-null : (x : Datum) → is_valid (compare x Datum.null) ≡ false
unfolding compare
compare-null Datum.null = refl
compare-null (Datum.int n) = refl
compare-null (Datum.str s) = refl

module _ {E : Type 0} where
  int_key-number :
      (n : ℤ) (r : Result NumberError (ℤ × Bytes)) (text : Bytes) (key : Datum)
      → is_valid (compare (Datum.int n) (number_or_text r text)) ≡ true
      → int_key {E = E} r ≡ ok key
      → number_or_text r text ≡ key
  unfolding compare
  int_key-number n (ok (m, [])) text key v h = ground arith
  int_key-number n (ok (m, c ∷ rest)) text key v h = absurd (ground arith)
  int_key-number n (err e) text key v h = absurd (ground arith)

  typed_key-number :
      (x : Datum) (type : DataType) (text : Bytes) (key : Datum)
      → matches x type ≡ true
      → is_valid (compare x (number_or_text (stoll text) text)) ≡ true
      → typed_key {E = E} text type ≡ ok key
      → number_or_text (stoll text) text ≡ key
  unfolding matches compare
  typed_key-number (Datum.int n) DataType.int text key m v h =
      int_key-number n (stoll text) text key v h
  typed_key-number (Datum.str s) DataType.str text key m v h =
      ground (arith, str_key-number s (stoll text) text v)
  typed_key-number (Datum.int n) DataType.str text key m v h = absurd (ground arith)
  typed_key-number (Datum.str s) DataType.int text key m v h = absurd (ground arith)
  typed_key-number Datum.null type text key m v h = absurd (ground arith)

  -- Where a value of the column's type can be compared with a constant, the key that is looked up is
  -- that constant.
  pub parse_literal-constant :
      (x : Datum) (type : DataType) (text : Bytes) (key : Datum)
      → matches x type ≡ true
      → is_valid (compare x (constant text)) ≡ true
      → parse_literal_for_column {E = E} text type ≡ ok key
      → constant text ≡ key
  unfolding parse_literal_for_column
  parse_literal-constant x type text key m v h = elim (Bool-cases (bytes_eq text (codes "NULL"))) [
    | inl e ↦ absurd (cc (compare-null x, rw (e, constant) at v))
    | inr e ↦
        rw (e, constant)
          (typed_key-number x type text key m (rw (e, constant) at v)
            (rw (e, parse_literal_for_column) at h))
  ]
