-- ===== src/Storage/Value.antt =====
-- storage/src/value.cpp: values that hold the id of a string, and their agreement with the values
-- that hold the string.
use dbms_project_sp.Base.{
  ℕ, ◌≡◌, refl, Bool, true, false, Option, none, some, if◌then◌else◌, ◌==◌, ==_iff, Bool-cases, inl,
  inr, Bytes, bytes_lt, arith,
}
use dbms_project_sp.Base.Int.{ℤ, ltb_ℤ, eqb_ℤ}
use dbms_project_sp.Storage.Datum
use dbms_project_sp.Storage.Datum.{Datum, Comparison, invalid, less, equal, greater, three_way}
use dbms_project_sp.Storage.Datum.Order.{bytes_lt_irrefl}
use dbms_project_sp.Storage.Pool.{Pool, intern, get}
use dbms_project_sp.Storage.Pool.Laws.{IsPool, get-injective}

pub data Value : Type 0 where
  null : Value
  int : ℤ → Value
  str : ℕ → Value

unfoldable pub of_str : Bytes → Pool → Value × Pool
of_str s p = let (id, q) = intern s p in (str id, q)

-- `a < b`, `a > b` on the strings of two ids; `none` is the exception of an invalid id.
abbrev compare_texts : Option Bytes → Option Bytes → Option Comparison
compare_texts (some a) (some b) = some (three_way (bytes_lt a b) (bytes_lt b a))
compare_texts _ _ = none

-- The function is `noexcept`: `none` ends the program.
unfoldable pub compare : Pool → Value → Value → Option Comparison
compare p (int a) (int b) = some (three_way (ltb_ℤ a b) (ltb_ℤ b a))
compare p (str i) (str j) = if i == j then some equal else compare_texts (get i p) (get j p)
compare p _ _ = some invalid

-- `operator==`, by the tag and the id.
unfoldable pub same : Value → Value → Bool
same null null = true
same (int a) (int b) = eqb_ℤ a b
same (str i) (str j) = i == j
same _ _ = false

-- What a value stands for; nothing, if its id is no id of the pool.
unfoldable pub denote : Pool → Value → Option Datum
denote p null = some Datum.null
denote p (int n) = some (Datum.int n)
denote p (str id) = elim (get id p) [ none ↦ none | some s ↦ some (Datum.str s) ]

denote_str :
    (p : Pool) (id : ℕ) (x : Datum)
    → denote p (str id) ≡ some x
    → (s : Bytes) × (get id p ≡ some s) × (x ≡ Datum.str s)
unfolding denote
denote_str p id x h = ground arith

compare_str :
    (p : Pool) (i j : ℕ) (s t : Bytes)
    → IsPool p
    → get i p ≡ some s
    → get j p ≡ some t
    → (if i == j then some equal else compare_texts (get i p) (get j p))
      ≡ some (three_way (bytes_lt s t) (bytes_lt t s))
compare_str p i j s t v h k = elim (Bool-cases (i == j)) [
  | inl e ↦
      let same_text = (get-injective p i j s t v h k).0 ((==_iff i j).0 e) in
      rw (e, same_text, bytes_lt_irrefl t)
  | inr e ↦ rw (e, h, k)
]

compare-null_left : (y : Datum) → Datum.compare Datum.null y ≡ invalid
unfolding Datum.compare
compare-null_left y = refl

compare-null_right : (x : Datum) → Datum.compare x Datum.null ≡ invalid
unfolding Datum.compare
compare-null_right Datum.null = refl
compare-null_right (Datum.int n) = refl
compare-null_right (Datum.str s) = refl

denote_null : (p : Pool) (x : Datum) → denote p null ≡ some x → Datum.null ≡ x
unfolding denote
denote_null p x h = ground arith

denote_int : (p : Pool) (n : ℤ) (x : Datum) → denote p (int n) ≡ some x → Datum.int n ≡ x
unfolding denote
denote_int p n x h = ground arith

-- Where each of two values stands for something, comparing them by their ids ends without an
-- exception and gives the comparison of what they stand for.
pub compare-denote :
    (p : Pool) (a b : Value) (x y : Datum)
    → IsPool p
    → denote p a ≡ some x
    → denote p b ≡ some y
    → compare p a b ≡ some (Datum.compare x y)
unfolding compare Datum.compare
compare-denote p (str i) (str j) x y v h k =
    let (s, at_i, is_s) = denote_str p i x h in
    let (t, at_j, is_t) = denote_str p j y k in rw (is_s, is_t) (compare_str p i j s t v at_i at_j)
compare-denote p null b x y v h k = rw (← denote_null p x h, compare-null_left y)
compare-denote p (int m) null x y v h k = rw (← denote_null p y k, compare-null_right x)
compare-denote p (str i) null x y v h k = rw (← denote_null p y k, compare-null_right x)
compare-denote p (int m) (int n) x y v h k = rw (← denote_int p m x h, ← denote_int p n y k)
compare-denote p (int m) (str j) x y v h k =
    let (t, at_j, is_t) = denote_str p j y k in rw (← denote_int p m x h, is_t)
compare-denote p (str i) (int n) x y v h k =
    let (s, at_i, is_s) = denote_str p i x h in rw (is_s, ← denote_int p n y k)
