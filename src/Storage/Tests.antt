-- ===== src/Storage/Tests.antt =====
-- A table with one indexed column, a pool of one string, and the theorems at them. The index is a
-- list of keys that refuses strings.
use dbms_project_sp.Base.{
  ◌⊎◌, bytes_eq, length, All, ℕ, ◌<◌, ◌≡◌, refl, Bool, true, false, List, [], ◌∷◌, ◌++◌, ◌^◌,
  Option, none, some, if◌then◌else◌, codes, Result, ◌>>=◌, ◌||◌, ok, err, arith, ◌↔◌, ◌≢◌,
  get_elem?,
}
use dbms_project_sp.Base.Int.{pos}
use dbms_project_sp.Storage.Datum.{matches, Datum, DataType, null, compare, equal, Comparison}
use dbms_project_sp.Storage.Datum.Order.{Comparable, compare_order}
use dbms_project_sp.Storage.Pool.{Pool, empty_pool, intern, find_value, get}
use dbms_project_sp.Storage.Pool.Laws.{IsPool, empty_pool-IsPool, Interned, intern_lem}
use dbms_project_sp.Storage.Pool.Stream.{serialize, deserialize}
use dbms_project_sp.Storage.Pool.Stream.RoundTrip.{Short, Restored, deserialize-Restored}
use dbms_project_sp.Storage.Value
use dbms_project_sp.Storage.Value.{Value, compare-denote, denote}
use dbms_project_sp.Storage.Schema.Names.{HasNames, set_columns-HasNames}
use dbms_project_sp.Storage.Schema.{
  set_columns, set_columns_from, find_index, ColumnDef, TableSchema,
}
use dbms_project_sp.Storage.Table.{
  validate, validate_from, validate_cell, value_exists_in_column, notify_insert, Table, IndexOps,
  RowId, index_error, lookup,
}
use dbms_project_sp.Storage.Table.Operations.{insert}
use dbms_project_sp.Storage.Table.Rows.{IsTable}
use dbms_project_sp.Storage.Table.Invariant.{
  Reachable, start, step, Reachable-IsTable, insert_call, run,
}
use dbms_project_sp.Storage.Table.Materialize.{
  Placed, materialize, materialize_from, materialize_lem,
}

abbrev pub is_equal : Comparison → Bool
is_equal equal = true
is_equal _ = false

abbrev is_less : Comparison → Bool
is_less Comparison.less = true
is_less _ = false

abbrev pub Keys : Type 0
Keys = List (Datum × RowId)

abbrev pub find_key : Datum → Keys → Result Bool (Option RowId)
find_key v [] = ok none
find_key v ((key, id) ∷ keys) = if is_equal (compare key v) then ok (some id) else find_key v keys

abbrev pub search_keys : Datum → Datum → Keys → Result Bool (List RowId)
search_keys low high [] = ok []
search_keys low high ((key, id) ∷ keys) = search_keys low high keys >>= λ ids.
    ok (if is_less (compare key low) || is_less (compare high key) then ids else id ∷ ids)

abbrev insert_key : Datum → RowId → Keys → Keys × Result Bool (Unit {0})
insert_key (Datum.str s) id keys = (keys, err false)
insert_key v id keys = ((v, id) ∷ keys, ok tt)

abbrev erase_key : Datum → Keys → Keys × Result Bool Bool
erase_key v [] = ([], ok false)
erase_key v ((key, id) ∷ keys) =
    let (rest, found) = erase_key v keys in
    if is_equal (compare key v) then (keys, ok true) else ((key, id) ∷ rest, found)

abbrev pub key_list : IndexOps Keys Bool
key_list = record {
  find = find_key;
  range_search = search_keys;
  insert = insert_key;
  erase = erase_key;
}

abbrev name_column : ColumnDef
name_column = record {
  name = codes "name";
  type = DataType.str;
  not_null = true;
  indexed = true;
  default_value = none;
}

abbrev one_column : TableSchema
one_column = record { columns = name_column ∷ []; index_by_name = (codes "name", 0) ∷ [] }

abbrev new_table : Table Keys
new_table = record {
  schema = one_column;
  rows = [];
  order = [];
  indexes = (0, []) ∷ [];
  next_id = 1;
}

abbrev ann : Datum
ann = Datum.str (codes "ann")

abbrev ann_table : Table Keys
ann_table = run key_list (insert_call (ann ∷ [])) new_table

-- The index refused the key, and the row is there.
insert_refused : (insert key_list (ann ∷ []) new_table).1 ≡ err (index_error false)
unfolding insert validate validate_from validate_cell matches value_exists_in_column notify_insert
insert_refused = refl

row_kept : lookup 1 ann_table.rows ≡ some (ann ∷ [])
unfolding run insert validate validate_from validate_cell matches value_exists_in_column
row_kept = refl

Reachable-ann_table : Reachable key_list one_column ((0, []) ∷ []) ann_table
Reachable-ann_table = step new_table (insert_call (ann ∷ [])) (omega arith) start

Reachable-IsTable_example : IsTable ann_table
Reachable-IsTable_example =
    Reachable-IsTable key_list one_column ((0, []) ∷ []) ann_table Reachable-ann_table

intern_lem_example : Interned (codes "ann") empty_pool (intern (codes "ann") empty_pool)
intern_lem_example = intern_lem (codes "ann") empty_pool empty_pool-IsPool (omega arith)

-- The pool behind the first string.
abbrev ann_pool : Pool
ann_pool = (intern (codes "ann") empty_pool).1

ann_pool-IsPool : IsPool ann_pool
ann_pool-IsPool = (intern_lem (codes "ann") empty_pool empty_pool-IsPool (omega arith)).0

ann_pool-Short : All Short ann_pool.by_id
unfolding intern find_value
ann_pool-Short = (omega arith, (omega arith, tt))

ann_pool-HasRoom : length ann_pool.by_id < 2 ^ 32
unfolding intern find_value
ann_pool-HasRoom = omega arith

deserialize-Restored_example :
    Restored ann_pool (codes "t") (deserialize (serialize ann_pool ++ codes "t"))
deserialize-Restored_example =
    deserialize-Restored ann_pool (codes "t") ann_pool-IsPool ann_pool-HasRoom ann_pool-Short

ann_denoted : denote ann_pool (Value.str 1) ≡ some ann
unfolding denote get intern find_value
ann_denoted = refl

null_denoted : denote ann_pool Value.null ≡ some null
unfolding denote
null_denoted = refl

compare-denote_example : Value.compare ann_pool (Value.str 1) Value.null ≡ some (compare ann null)
compare-denote_example =
    compare-denote ann_pool (Value.str 1) Value.null ann null ann_pool-IsPool ann_denoted
      null_denoted

compare_order_example :
    ((Comparable ann null
        × ((compare ann null ≡ Comparison.less)
            ⊎ (compare ann null ≡ equal)
            ⊎ (compare ann null ≡ Comparison.greater)))
      ⊎ ((Comparable ann null → ⊥) × (compare ann null ≡ Comparison.invalid)))
    × ((compare ann null ≡ equal) ↔ ((ann ≡ null) × (ann ≢ null)))
    × ((compare ann null ≡ Comparison.less) ↔ (compare null ann ≡ Comparison.greater))
    × (compare ann null ≡ Comparison.less
        → compare null ann ≡ Comparison.less
        → compare ann ann ≡ Comparison.less)
compare_order_example = compare_order ann null ann

ann_materialized : materialize (pos 0 ∷ []) (ann ∷ []) one_column ≡ ok (ann ∷ [])
unfolding materialize materialize_from
ann_materialized = refl

materialize_lem_example :
    (length (ann ∷ []) ≡ length one_column.columns)
    × Placed (pos 0 ∷ []) (ann ∷ []) (ann ∷ [])
    × ((i : ℕ)
        → i < length one_column.columns
        → All (λ p. p ≢ pos i) (pos 0 ∷ [])
        → get_elem? (ann ∷ []) i ≡ some null)
materialize_lem_example =
    materialize_lem (pos 0 ∷ []) (ann ∷ []) one_column (ann ∷ []) ann_materialized

one_column-built : set_columns (name_column ∷ []) ≡ ok one_column
unfolding set_columns set_columns_from bytes_eq find_index
one_column-built = refl

set_columns-HasNames_example : HasNames one_column × (one_column.columns ≡ name_column ∷ [])
set_columns-HasNames_example = set_columns-HasNames (name_column ∷ []) one_column one_column-built
