-- ===== src/Index/Tree/Grow.antt =====
-- `split_internal` and `split_leaf` of index/src/bstarplus_tree_index.cpp. A path stands from the
-- last page to the root.
use dbms_project_sp.Base.{
  ℕ, zero, suc, ◌/◌, true, false, not, List, [], ◌∷◌, none, some, length, if◌then◌else◌, ltb, ◌==◌,
}
use dbms_project_sp.Base.Action.{pure, raise, ◌>>=◌, ◌>>◌}
use dbms_project_sp.Base.Vector.{take, drop, position_of}
use dbms_project_sp.Index.Scalar.{logic_error}
use dbms_project_sp.Index.Key.{IndexKey}
use dbms_project_sp.Index.Disk.{invalid_page_id}
use dbms_project_sp.Index.Node.{IndexNode}
use dbms_project_sp.Index.Tree.{child_at}
use dbms_project_sp.Index.Tree.Nodes.{
  TreeAction, require, new_page, read_node, subtree_min_key, rebuild_internal_keys,
}
use dbms_project_sp.Index.Tree.Split.{
  empty_node, try_give_to_right_leaf, try_give_to_left_leaf, try_redistribute_internal_with_right,
  try_redistribute_internal_with_left, insert_into_parent, split_leaf_pair, split_internal_pair,
}

abbrev first_child_key : List ℕ → TreeAction IndexKey
first_child_key [] = raise logic_error
first_child_key (child ∷ children) = subtree_min_key child

module _ (again : IndexNode → TreeAction (Unit {0})) where
  abbrev halve_internal : IndexNode → List ℕ → TreeAction (Unit {0})
  halve_internal node path = do
    require (not (ltb (length node.children) 2)) logic_error
    let half = length node.children / 2
    id ← new_page
    left ← rebuild_internal_keys (record node { children = take half node.children })
    right ←
        rebuild_internal_keys
          (record (empty_node false id invalid_page_id) { children = drop half node.children })
    separator ← first_child_key right.children
    insert_into_parent again left separator right path

  abbrev halve_leaf : IndexNode → List ℕ → TreeAction (Unit {0})
  halve_leaf leaf path = do
    id ← new_page
    let half = length leaf.keys / 2
    let right = record (empty_node true id leaf.next_leaf_page_id) {
      keys = drop half leaf.keys;
      records = drop half leaf.records;
    }
    let left = record leaf {
      keys = take half leaf.keys;
      records = take half leaf.records;
      next_leaf_page_id = id;
    }
    elim right.keys [
      | [] ↦ raise logic_error
      | separator ∷ keys ↦ insert_into_parent again left separator right path
    ]

  -- With the sibling behind, or that in front, or alone.
  abbrev split_internal_beside : IndexNode → IndexNode → ℕ → List ℕ → TreeAction (Unit {0})
  split_internal_beside node parent i path = elim (child_at (suc i) parent.children) [
    | some id ↦ do right ← read_node id; split_internal_pair again node right parent i
    | none ↦ elim i [
      | zero ↦ halve_internal node path
      | suc j ↦ elim (child_at j parent.children) [
        | some id ↦ do left ← read_node id; split_internal_pair again left node parent j
        | none ↦ raise logic_error
      ]
    ]
  ]

  abbrev split_leaf_beside : IndexNode → IndexNode → ℕ → List ℕ → TreeAction (Unit {0})
  split_leaf_beside leaf parent i path = elim (child_at (suc i) parent.children) [
    | some id ↦ do
      right ← read_node id
      require right.is_leaf logic_error
      split_leaf_pair again leaf right parent i
    | none ↦ elim i [
      | zero ↦ halve_leaf leaf path
      | suc j ↦ elim (child_at j parent.children) [
        | some id ↦ do
          left ← read_node id
          require left.is_leaf logic_error
          split_leaf_pair again left leaf parent j
        | none ↦ raise logic_error
      ]
    ]
  ]

unfoldable pub split_internal : List ℕ → IndexNode → TreeAction (Unit {0})
split_internal [] node = raise logic_error
split_internal (last ∷ []) node = do
  require (not node.is_leaf) logic_error
  require (last == node.page_id) logic_error
  halve_internal (λ _. raise logic_error) node (last ∷ [])
split_internal (last ∷ above ∷ path) node = do
  require (not node.is_leaf) logic_error
  require (last == node.page_id) logic_error
  parent ← read_node above
  require (not parent.is_leaf) logic_error
  elim (position_of node.page_id parent.children) [
    | none ↦ raise logic_error
    | some i ↦ do
      right ← try_redistribute_internal_with_right node parent i (above ∷ path)
      if right then pure tt else do
        left ← try_redistribute_internal_with_left node parent i (above ∷ path)
        if left
            then pure tt
            else split_internal_beside (split_internal (above ∷ path)) node parent i
                (last ∷ above ∷ path)
  ]

unfoldable pub split_leaf : List ℕ → IndexNode → TreeAction (Unit {0})
split_leaf [] leaf = raise logic_error
split_leaf (last ∷ []) leaf = do
  require leaf.is_leaf logic_error
  require (last == leaf.page_id) logic_error
  halve_leaf (λ _. raise logic_error) leaf (last ∷ [])
split_leaf (last ∷ above ∷ path) leaf = do
  require leaf.is_leaf logic_error
  require (last == leaf.page_id) logic_error
  parent ← read_node above
  require (not parent.is_leaf) logic_error
  elim (position_of leaf.page_id parent.children) [
    | none ↦ raise logic_error
    | some i ↦ do
      right ← try_give_to_right_leaf leaf parent i
      if right then pure tt else do
        left ← try_give_to_left_leaf leaf parent i
        if left
            then pure tt
            else split_leaf_beside (split_internal (above ∷ path)) leaf parent i
                (last ∷ above ∷ path)
  ]
