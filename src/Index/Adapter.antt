-- ===== src/Index/Adapter.antt =====
-- `BStarPlusIndexAdapter` of storage/src/bstarplus_adapter.cpp: a tree as an index of a table. The
-- record of a key is the id of its row, as a number of 64 bits on both sides.
pub mod Agrees
pub mod Again
mod Tests
use dbms_project_sp.Base.{Option, List, Result, ok, err, ◌>>=◌}
use dbms_project_sp.Storage.Datum.{Datum, null, int, str}
use dbms_project_sp.Storage.Table.{IndexOps, RowId}
use dbms_project_sp.Index.Scalar.{IndexError, invalid_argument}
use dbms_project_sp.Index.Key.{IndexKey}
use dbms_project_sp.Index.Tree.{BStarPlusIndex}
use dbms_project_sp.Index.Tree
use dbms_project_sp.Index.Tree.Nodes.{TreeAction}
use dbms_project_sp.Index.Tree.Update

unfoldable pub to_index_key : Datum → Result IndexError IndexKey
to_index_key null = err invalid_argument
to_index_key (int n) = ok (IndexKey.int64 n)
to_index_key (str s) = ok (IndexKey.string s)

-- A value that is no key is refused before the index is called.
abbrev with_key :
    {A : Type 0} → Result IndexError IndexKey → (IndexKey → TreeAction A) → TreeAction A
with_key (ok key) f = f key
with_key (err e) f = λ t. (t, err e)

unfoldable pub bstarplus_adapter : IndexOps BStarPlusIndex IndexError
bstarplus_adapter = record {
  find = λ key t. to_index_key key >>= λ k. Tree.find k t;
  range_search = λ begin end t.
      to_index_key begin >>= λ low. to_index_key end >>= λ high. Tree.range_search low high t;
  insert = λ key row_id. with_key (to_index_key key) (λ k. Update.insert k row_id);
  erase = λ key. with_key (to_index_key key) Update.erase;
}
