-- ===== src/Storage/Table/Materialize.antt =====
-- `require_column` and `materialize` of storage/src/table.cpp: a row from the values of some columns.
use dbms_project_sp.Base.{
  ℕ, zero, suc, ◌<◌, ◌≡◌, ◌≢◌, refl, sym, ◌∙◌, ap, Bool, true, false, List, [], ◌∷◌, Option, none,
  some, length, get_elem?, set, replicate, length-set, length-replicate, if◌then◌else◌, ◌==◌,
  ==_iff, ltb, arith, All, Bytes, Result, ok, err,
}
use dbms_project_sp.Base.Int.{ℤ, pos, negsuc}
use dbms_project_sp.Storage.Datum.{Datum, null}
use dbms_project_sp.Storage.Schema.{TableSchema, find_index}
use dbms_project_sp.Storage.Table.{Row}

pub data MaterializeError : Type 0 where
  unknown_column count_mismatch position_out_of_range duplicate_position : MaterializeError

unfoldable pub require_column : Bytes → TableSchema → Result MaterializeError ℤ
require_column name s = elim (find_index name s) [ none ↦ err unknown_column | some i ↦ ok (pos i) ]

abbrev is_assigned : Option Bool → Bool
is_assigned (some b) = b
is_assigned none = false

-- The loop's state is the flags of the columns that have their value, and the row.
unfoldable pub materialize_from :
    List ℤ → List Datum → List Bool → Row → Result MaterializeError Row
materialize_from (pos n ∷ ps) (v ∷ vs) assigned row =
    let rest = materialize_from ps vs (set assigned n true) (set row n v) in
    if ltb n (length row)
    then if is_assigned (get_elem? assigned n) then err duplicate_position else rest
    else err position_out_of_range
materialize_from (negsuc n ∷ ps) (v ∷ vs) assigned row = err position_out_of_range
materialize_from _ _ assigned row = ok row

unfoldable pub materialize : List ℤ → List Datum → TableSchema → Result MaterializeError Row
materialize positions values s =
    if length positions == length values
    then materialize_from positions values (replicate (length s.columns) false)
        (replicate (length s.columns) null)
    else err count_mismatch

module _ {ℓ} {A : Type ℓ} where
  get_elem?-set : (xs : List A) (i : ℕ) (v : A) → i < length xs → get_elem? (set xs i v) i ≡ some v
  get_elem?-set [] i v h = elim h [ ]
  get_elem?-set (x ∷ xs) zero v h = refl
  get_elem?-set (x ∷ xs) (suc i) v h = get_elem?-set xs i v (omega (arith, h))

  get_elem?-set_other :
      (xs : List A) (i j : ℕ) (v : A) → i ≢ j → get_elem? (set xs i v) j ≡ get_elem? xs j
  get_elem?-set_other [] i j v h = refl
  get_elem?-set_other (x ∷ xs) zero zero v h = absurd (h refl)
  get_elem?-set_other (x ∷ xs) zero (suc j) v h = refl
  get_elem?-set_other (x ∷ xs) (suc i) zero v h = refl
  get_elem?-set_other (x ∷ xs) (suc i) (suc j) v h =
      get_elem?-set_other xs i j v (λ e. h (ap suc e))

  get_elem?-replicate : (n i : ℕ) (a : A) → i < n → get_elem? (replicate n a) i ≡ some a
  get_elem?-replicate zero i a h = elim h [ ]
  get_elem?-replicate (suc n) zero a h = refl
  get_elem?-replicate (suc n) (suc i) a h = get_elem?-replicate n i a (omega (arith, h))

-- Each value stands in its column.
abbrev pub Placed : List ℤ → List Datum → Row → Type 0
Placed (pos n ∷ ps) (v ∷ vs) row = (get_elem? row n ≡ some v) × Placed ps vs row
Placed [] [] row = Unit
Placed _ _ row = ⊥

record Filled (ps : List ℤ) (vs : List Datum) (assigned : List Bool) (old row : Row) : Type 0 where
  pub same_length : length row ≡ length old
  pub placed : Placed ps vs row
  pub kept : (i : ℕ) → get_elem? assigned i ≡ some true → get_elem? row i ≡ get_elem? old i
  pub untouched : (i : ℕ) → All (λ p. p ≢ pos i) ps → get_elem? row i ≡ get_elem? old i

Filled-cons :
    (n : ℕ) (ps : List ℤ) (v : Datum) (vs : List Datum) (assigned : List Bool) (old row : Row)
    → n < length old
    → length assigned ≡ length old
    → is_assigned (get_elem? assigned n) ≡ false
    → Filled ps vs (set assigned n true) (set old n v) row
    → Filled (pos n ∷ ps) (v ∷ vs) assigned old row
Filled-cons n ps v vs assigned old row l e free f = record {
  same_length = f.same_length ∙ length-set old n v;
  placed = (
    f.kept n (get_elem?-set assigned n true (omega (arith, l, e))) ∙ get_elem?-set old n v l,
    f.placed,
  );
  kept = λ i h.
      let other : n ≢ i = λ same. cc (free, same, h) in
      f.kept i (get_elem?-set_other assigned n i true other ∙ h)
      ∙ get_elem?-set_other old n i v other;
  untouched = λ i h. f.untouched i h.1 ∙ get_elem?-set_other old n i v (λ same. h.0 (ap pos same));
}

round_ok :
    (inside assigned : Bool) (rest : Result MaterializeError Row) (row : Row)
    → (if inside
        then if assigned then err duplicate_position else rest
        else err position_out_of_range)
      ≡ ok row
    → (inside ≡ true) × (assigned ≡ false) × (rest ≡ ok row)
round_ok true false rest row h = (refl, refl, h)
round_ok true true rest row h = absurd (ground arith)
round_ok false assigned rest row h = absurd (ground arith)

count_ok :
    (b : Bool) (rest : Result MaterializeError Row) (row : Row)
    → (if b then rest else err count_mismatch) ≡ ok row
    → (b ≡ true) × (rest ≡ ok row)
count_ok true rest row h = (refl, h)
count_ok false rest row h = absurd (ground arith)

materialize_from-Filled :
    (ps : List ℤ) (vs : List Datum) (assigned : List Bool) (old row : Row)
    → length ps ≡ length vs
    → length assigned ≡ length old
    → materialize_from ps vs assigned old ≡ ok row
    → Filled ps vs assigned old row
unfolding materialize_from
materialize_from-Filled [] [] assigned old row l e h =
    let same : old ≡ row = ground arith in
    record {
      same_length = ap length (sym same);
      placed = tt;
      kept = λ i k. ap (λ r. get_elem? r i) (sym same);
      untouched = λ i k. ap (λ r. get_elem? r i) (sym same);
    }
materialize_from-Filled [] (v ∷ vs) assigned old row l e h = absurd (ground arith)
materialize_from-Filled (p ∷ ps) [] assigned old row l e h = absurd (ground arith)
materialize_from-Filled (negsuc n ∷ ps) (v ∷ vs) assigned old row l e h = absurd (ground arith)
materialize_from-Filled (pos n ∷ ps) (v ∷ vs) assigned old row l e h =
    let (inside, free, rest) =
      round_ok (ltb n (length old)) (is_assigned (get_elem? assigned n))
        (materialize_from ps vs (set assigned n true) (set old n v)) row h in
    Filled-cons n ps v vs assigned old row (ground (arith, inside)) e free (
      materialize_from-Filled ps vs (set assigned n true) (set old n v) row (omega (arith, l))
        (length-set assigned n true ∙ e ∙ sym (length-set old n v)) rest)

-- A row that `materialize` returns has a cell in every column of the schema: each value stands in
-- the column that its position names, and the other columns are NULL.
pub materialize_lem :
    (positions : List ℤ) (values : List Datum) (s : TableSchema) (row : Row)
    → materialize positions values s ≡ ok row
    → (length row ≡ length s.columns)
      × Placed positions values row
      × ((i : ℕ)
          → i < length s.columns
          → All (λ p. p ≢ pos i) positions
          → get_elem? row i ≡ some null)
unfolding materialize
materialize_lem positions values s row h =
    let n = length s.columns in
    let (same, rest) =
      count_ok (length positions == length values)
        (materialize_from positions values (replicate n false) (replicate n null)) row h in
    let filled =
      materialize_from-Filled positions values (replicate n false) (replicate n null) row
        ((==_iff (length positions) (length values)).0 same)
        (length-replicate n false ∙ sym (length-replicate n null)) rest in
    (
      filled.same_length ∙ length-replicate n null,
      filled.placed,
      λ i l h. filled.untouched i h ∙ get_elem?-replicate n i null l,
    )
