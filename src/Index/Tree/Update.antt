-- ===== src/Index/Tree/Update.antt =====
-- `insert` and `erase` of index/src/bstarplus_tree_index.cpp.
use dbms_project_sp.Base.{
  ℕ, suc, ◌-◌, ◌%◌, ◌^◌, Bool, true, false, not, ◌&&◌, ◌||◌, List, [], ◌∷◌, length, if◌then◌else◌,
  ltb, ◌==◌,
}
use dbms_project_sp.Base.Action.{pure, gets, from_result, ◌>>=◌, ◌>>◌}
use dbms_project_sp.Base.Vector.{insert_at, erase_at}
use dbms_project_sp.Index.Scalar.{invalid_argument}
use dbms_project_sp.Index.Key.{IndexKey, validate_key_kind}
use dbms_project_sp.Index.Disk.{invalid_page_id, is_empty_index}
use dbms_project_sp.Index.Node.{IndexNode}
use dbms_project_sp.Index.Tree.{BStarPlusIndex, lower_bound, stands_at, find_leaf}
use dbms_project_sp.Index.Tree.Nodes.{
  TreeAction, require, change_metadata, kind_of, store_metadata, new_page, write_node,
  node_fits_page, min_leaf_key_count, propagate_subtree_min_change,
}
use dbms_project_sp.Index.Tree.Split.{empty_node}
use dbms_project_sp.Index.Tree.Grow.{split_leaf}
use dbms_project_sp.Index.Tree.Underflow.{fix_leaf_underflow}

unfoldable pub insert_first : IndexKey → ℕ → TreeAction (Unit {0})
insert_first key record_id = do
  id ← new_page
  write_node
      (record (empty_node true id invalid_page_id) { keys = key ∷ []; records = record_id ∷ [] })
  change_metadata
      (λ md. record md { root_page_id = id; first_leaf_page_id = id; height = 1; size = 1 })
  store_metadata

-- Where the leaf holds the key, or would, and whether it does.
abbrev pub search_leaf : IndexKey → TreeAction (IndexNode × List ℕ × ℕ × Bool)
search_leaf key = do
  (leaf, path) ← λ t. (t, find_leaf key t)
  i ← from_result (lower_bound key leaf.keys)
  there ← from_result (stands_at i key leaf.keys)
  pure (leaf, path, i, there)

unfoldable pub insert_beside_others : IndexKey → ℕ → TreeAction (Unit {0})
insert_beside_others key record_id = do
  (leaf, path, i, there) ← search_leaf key
  require (not there) invalid_argument
  let leaf = record leaf {
    keys = insert_at i key leaf.keys;
    records = insert_at i record_id leaf.records;
  }
  fit ← node_fits_page leaf
  if fit then write_node leaf else split_leaf path leaf
  change_metadata (λ md. record md { size = suc md.size % 2 ^ 64 })
  store_metadata

unfoldable pub insert : IndexKey → ℕ → TreeAction (Unit {0})
insert key record_id = do
  kind ← kind_of
  from_result (validate_key_kind key kind)
  no_root ← gets (λ t. is_empty_index t.metadata)
  if no_root then insert_first key record_id else insert_beside_others key record_id

-- The last key of the index is erased.
abbrev pub erase_last : IndexNode → TreeAction Bool
erase_last leaf = do
  write_node (record leaf { keys = []; records = [] })
  change_metadata (λ md. record md {
    root_page_id = invalid_page_id;
    first_leaf_page_id = invalid_page_id;
    height = 0;
  })
  store_metadata
  pure true

abbrev pub has_enough : IndexNode → BStarPlusIndex → Bool
has_enough leaf t =
    leaf.page_id == t.metadata.root_page_id
    || not (ltb (length leaf.keys) (min_leaf_key_count t.metadata.key_kind))

abbrev pub was_least : ℕ → IndexNode → Bool
was_least i leaf = i == 0 && ltb 0 (length leaf.keys)

abbrev pub restore : ℕ → IndexNode → List ℕ → TreeAction (Unit {0})
restore i leaf path = do
  enough ← gets (has_enough leaf)
  if not enough then fix_leaf_underflow leaf path else do
    write_node leaf
    if was_least i leaf then propagate_subtree_min_change leaf.page_id path else pure tt

unfoldable pub erase_found : IndexNode → List ℕ → ℕ → TreeAction Bool
erase_found leaf path i = do
  let leaf = record leaf { keys = erase_at i leaf.keys; records = erase_at i leaf.records }
  change_metadata (λ md. record md { size = md.size - 1 })
  left ← gets (λ t. t.metadata.size)
  if left == 0 then erase_last leaf else do restore i leaf path; store_metadata; pure true

unfoldable pub erase : IndexKey → TreeAction Bool
erase key = do
  kind ← kind_of
  from_result (validate_key_kind key kind)
  no_root ← gets (λ t. is_empty_index t.metadata)
  if no_root then pure false else do
    (leaf, path, i, there) ← search_leaf key
    if there then erase_found leaf path i else pure false
