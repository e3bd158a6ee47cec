-- ===== src/Storage/Table.antt =====
-- `cw_db::Table` of storage/src/table.cpp, its operations on rows. A cell is the value it stands for,
-- and an index is a state with the operations of storage/include/index/index.h, which may throw.
-- An operation gives the table it leaves, also when it throws, beside its result.
pub mod Operations
pub mod Rows
pub mod Invariant
pub mod Insertion
pub mod Materialize
use dbms_project_sp.Base.{
  ℕ, zero, suc, ◌+◌, ◌%◌, ◌^◌, Bool, true, false, not, ◌&&◌, ◌||◌, List, [], ◌∷◌, ◌++◌, Option,
  none, some, length, get_elem?, set, if◌then◌else◌, ◌==◌, ltb, Result, ok, err, ◌>>=◌, ◌>>◌, guard,
}
use dbms_project_sp.Storage.Datum.{
  DataType, Datum, null, compare, equal, is_null, matches, Comparison,
}
use dbms_project_sp.Storage.Schema.{ColumnDef, TableSchema}

abbrev pub RowId : Type 0
RowId = ℕ

abbrev pub Row : Type 0
Row = List Datum

-- Why a call is refused.
pub data Refusal : Type 0 where
  arity_mismatch null_not_allowed type_mismatch duplicate_value row_not_found column_out_of_range
        too_many_values missing_value :
      Refusal

-- What a call throws: its own exception, that of an index asked for a key, or that of an index that
-- is changed.
pub data TableError (E : Type 0) : Type 0 where
  refused : Refusal → TableError E
  find_error index_error : E → TableError E

-- `IIndex`, over the state `I` and the exceptions `E` of an implementation.
pub record IndexOps (I E : Type 0) : Type 0 where
  pub find : Datum → I → Result E (Option RowId)
  pub range_search : Datum → Datum → I → Result E (List RowId)
  pub insert : Datum → RowId → I → I × Result E (Unit {0})
  pub erase : Datum → I → I × Result E Bool

-- A hash map's entries, in the order in which a loop meets them.
pub record Table (I : Type 0) : Type 0 where
  pub schema : TableSchema
  pub rows : List (RowId × Row)
  pub order : List RowId
  pub indexes : List (ℕ × I)
  pub next_id : RowId

module _ {ℓ} {A : Type ℓ} where
  abbrev pub lookup : ℕ → List (ℕ × A) → Option A
  lookup k [] = none
  lookup k ((key, a) ∷ m) = if key == k then some a else lookup k m

  abbrev pub remove : ℕ → List (ℕ × A) → List (ℕ × A)
  remove k [] = []
  remove k ((key, a) ∷ m) = if key == k then m else (key, a) ∷ remove k m

  abbrev pub assign : ℕ → A → List (ℕ × A) → List (ℕ × A)
  assign k v [] = []
  assign k v ((key, a) ∷ m) = if key == k then (key, v) ∷ m else (key, a) ∷ assign k v m

-- `emplace` keeps an entry that is there.
abbrev pub emplace : RowId → Row → List (RowId × Row) → List (RowId × Row)
emplace id row m = elim (lookup id m) [ some old ↦ m | none ↦ m ++ (id, row) ∷ [] ]

abbrev pub remove_first : RowId → List RowId → List RowId
remove_first id [] = []
remove_first id (x ∷ xs) = if x == id then xs else x ∷ remove_first id xs

abbrev is_excluded : Option RowId → RowId → Bool
is_excluded none id = false
is_excluded (some excluded) id = excluded == id

abbrev is_equal : Comparison → Bool
is_equal equal = true
is_equal _ = false

abbrev cell_equal : Option Datum → Datum → Bool
cell_equal none v = false
cell_equal (some d) v = is_equal (compare d v)

-- The linear pass over the rows; each row has a cell in every column of the schema.
unfoldable pub scan : ℕ → Datum → Option RowId → List (RowId × Row) → Bool
scan column v excluded [] = false
scan column v excluded ((id, row) ∷ rows) =
    (not (is_excluded excluded id) && cell_equal (get_elem? row column) v)
    || scan column v excluded rows

abbrev pub found_other :
    {E : Type 0} → Option RowId → Result E (Option RowId) → Result (TableError E) Bool
found_other excluded (err e) = err (find_error e)
found_other excluded (ok none) = ok false
found_other excluded (ok (some id)) = ok (not (is_excluded excluded id))

module _ {I E : Type 0} (ops : IndexOps I E) where
  unfoldable pub value_exists_in_column :
      ℕ → Datum → Option RowId → Table I → Result (TableError E) Bool
  value_exists_in_column column v excluded t = elim (lookup column t.indexes) [
    | some index ↦ found_other excluded (ops.find v index)
    | none ↦ ok (scan column v excluded t.rows)
  ]

  -- One round of the loop of `validate`; only an indexed column is asked for the value.
  unfoldable pub validate_cell :
      ColumnDef → Datum → ℕ → Option RowId → Table I → Result (TableError E) (Unit {0})
  validate_cell col v i existing t =
      if is_null v
      then guard (not (col.not_null || col.indexed)) (refused null_not_allowed)
      else guard (matches v col.type) (refused type_mismatch)
        >> (if col.indexed then value_exists_in_column i v existing t else ok false)
        >>= λ exists. guard (not exists) (refused duplicate_value)

  unfoldable pub validate_from :
      List ColumnDef → Row → ℕ → Option RowId → Table I → Result (TableError E) (Unit {0})
  validate_from (col ∷ cols) (v ∷ row) i existing t =
      validate_cell col v i existing t >> validate_from cols row (suc i) existing t
  validate_from _ _ i existing t = ok tt

  unfoldable pub validate : Row → Option RowId → Table I → Result (TableError E) (Unit {0})
  validate row existing t =
      guard (length row == length t.schema.columns) (refused arity_mismatch)
      >> validate_from t.schema.columns row 0 existing t

  -- The loop ends at the first index that throws; the indexes before it keep the row.
  unfoldable pub notify_insert : RowId → Row → List (ℕ × I) → List (ℕ × I) × Result E (Unit {0})
  notify_insert id row [] = ([], ok tt)
  notify_insert id row ((column, index) ∷ bindings) =
      let (others, outcome) = notify_insert id row bindings in
      elim (get_elem? row column) [
        | none ↦ ((column, index) ∷ others, outcome)
        | some v ↦
            let (index', done) = ops.insert v id index in
            elim done [
              | err e ↦ ((column, index') ∷ bindings, err e)
              | ok u ↦ ((column, index') ∷ others, outcome)
            ]
      ]

  unfoldable pub notify_erase : Row → List (ℕ × I) → List (ℕ × I) × Result E (Unit {0})
  notify_erase row [] = ([], ok tt)
  notify_erase row ((column, index) ∷ bindings) =
      let (others, outcome) = notify_erase row bindings in
      elim (get_elem? row column) [
        | none ↦ ((column, index) ∷ others, outcome)
        | some v ↦
            let (index', done) = ops.erase v index in
            elim done [
              | err e ↦ ((column, index') ∷ bindings, err e)
              | ok b ↦ ((column, index') ∷ others, outcome)
            ]
      ]

  -- The old key is taken out before the new one is put in.
  unfoldable pub notify_update :
      RowId → ℕ → Datum → Datum → List (ℕ × I) → List (ℕ × I) × Result E (Unit {0})
  notify_update id column old new bindings = elim (lookup column bindings) [
    | none ↦ (bindings, ok tt)
    | some index ↦
        let (erased, done) = ops.erase old index in
        elim done [
          | err e ↦ (assign column erased bindings, err e)
          | ok b ↦
              let (inserted, outcome) = ops.insert new id erased in
              (assign column inserted bindings, outcome)
        ]
  ]
