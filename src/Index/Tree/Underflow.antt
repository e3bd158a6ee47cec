-- ===== src/Index/Tree/Underflow.antt =====
-- What `BStarPlusIndex` does with a node that has too few keys after an erasure: it takes one from a
-- sibling, or is joined with one, and the parent, which loses a child, may then have too few in
-- turn. A path starts at the root, so that a node that is not the root has a parent on it.
use dbms_project_sp.Base.{
  ℕ, zero, suc, ◌-◌, Bool, true, false, not, List, [], ◌∷◌, ◌++◌, Option, none, some, length,
  if◌then◌else◌, ltb, ◌==◌,
}
use dbms_project_sp.Base.Action.{pure, raise, gets, ◌>>=◌, ◌>>◌}
use dbms_project_sp.Base.Vector.{take, drop, erase_at, last_of, but_last, position_of}
use dbms_project_sp.Index.Scalar.{logic_error}
use dbms_project_sp.Index.Node.{IndexNode}
use dbms_project_sp.Index.Tree.{child_at}
use dbms_project_sp.Index.Tree.Nodes.{
  TreeAction, require, change_metadata, kind_of, read_node, write_node, node_fits_page,
  min_leaf_key_count, min_internal_key_count, rebuild_internal_keys, propagate_subtree_min_change,
  promote_single_child_root,
}
use dbms_project_sp.Index.Tree.Split.{
  write_rebuilt, last_to_right, first_to_left, redistribute_leaf_pair, redistribute_internal_pair,
}

abbrev is_root : IndexNode → TreeAction Bool
is_root node = gets (λ t. node.page_id == t.metadata.root_page_id)

abbrev starts_at : IndexNode → List ℕ → Bool
starts_at node [] = false
starts_at node (last ∷ path) = last == node.page_id

-- `fix` stands for `fix_internal_underflow` at the path.
unfoldable pub handle_internal_after_child_removed :
    (IndexNode → TreeAction (Unit {0})) → IndexNode → List ℕ → TreeAction (Unit {0})
handle_internal_after_child_removed fix node path = do
  require (not node.is_leaf) logic_error
  require (starts_at node path) logic_error
  node ← rebuild_internal_keys node
  root ← is_root node
  kind ← kind_of
  if root
      then (if length node.children == 1 then promote_single_child_root node else write_node node)
      else (if ltb (length node.keys) (min_internal_key_count kind)
          then fix node
          else (do write_node node; propagate_subtree_min_change node.page_id path))

-- The siblings in front of a child and behind it; a leaf has leaves for siblings, and an inner node
-- inner nodes.
abbrev sibling : Bool → Option ℕ → TreeAction (Option IndexNode)
sibling leaf none = pure none
sibling leaf (some id) = do
  node ← read_node id
  require (if leaf then node.is_leaf else not node.is_leaf) logic_error
  pure (some node)

abbrev child_before : ℕ → List ℕ → Option ℕ
child_before zero children = none
child_before (suc i) children = child_at i children

abbrev parent_of : IndexNode → List ℕ → TreeAction (IndexNode × ℕ)
parent_of node [] = raise logic_error
parent_of node (above ∷ path) = do
  parent ← read_node above
  require (not parent.is_leaf) logic_error
  elim (position_of node.page_id parent.children) [
    | none ↦ raise logic_error
    | some i ↦ pure (parent, i)
  ]

-- Whether a sibling is there and can give a key away.
abbrev has_more_than : ℕ → Option IndexNode → Bool
has_more_than least none = false
has_more_than least (some node) = ltb least (length node.keys)

abbrev write_both : IndexNode → IndexNode → IndexNode → List ℕ → TreeAction (Unit {0})
write_both left right parent path = do
  write_node left
  write_node right
  write_rebuilt parent
  propagate_subtree_min_change parent.page_id path

abbrev joined_leaves : IndexNode → IndexNode → IndexNode
joined_leaves left right = record left {
  keys = left.keys ++ right.keys;
  records = left.records ++ right.records;
  next_leaf_page_id = right.next_leaf_page_id;
}

-- The parent without the child behind the one at the position.
abbrev without_child : ℕ → IndexNode → IndexNode
without_child i parent = record parent {
  children = erase_at (suc i) parent.children;
  keys = erase_at i parent.keys;
}

-- The child of the path is at the position or behind it, and its path is the parent's.
module _ (fix : List ℕ → IndexNode → TreeAction (Unit {0})) where
  abbrev join_leaves : IndexNode → IndexNode → IndexNode → ℕ → List ℕ → TreeAction (Unit {0})
  join_leaves left right parent i path = do
    let joined = joined_leaves left right
    fit ← node_fits_page joined
    if not fit then redistribute_leaf_pair left right parent path else do
      change_metadata (λ md. record md {
        first_leaf_page_id =
            if md.first_leaf_page_id == right.page_id then left.page_id else md.first_leaf_page_id;
      })
      write_node joined
      handle_internal_after_child_removed (fix path) (without_child i parent) path

  abbrev join_internals : IndexNode → IndexNode → IndexNode → ℕ → List ℕ → TreeAction (Unit {0})
  join_internals left right parent i path = do
    joined ← rebuild_internal_keys (record left { children = left.children ++ right.children })
    fit ← node_fits_page joined
    if not fit then redistribute_internal_pair left right parent path else do
      joined ← rebuild_internal_keys joined
      write_node joined
      handle_internal_after_child_removed (fix path) (without_child i parent) path

abbrev move_child_right : IndexNode → IndexNode → TreeAction (IndexNode × IndexNode)
move_child_right left right = do
  left_rebuilt ← rebuild_internal_keys (record left { children = but_last left.children })
  right_rebuilt ←
      rebuild_internal_keys (record right { children = last_of left.children ++ right.children })
  pure (left_rebuilt, right_rebuilt)

abbrev move_child_left : IndexNode → IndexNode → TreeAction (IndexNode × IndexNode)
move_child_left left right = do
  left_rebuilt ←
      rebuild_internal_keys (record left { children = left.children ++ take 1 right.children })
  right_rebuilt ← rebuild_internal_keys (record right { children = drop 1 right.children })
  pure (left_rebuilt, right_rebuilt)

abbrev take_or_join_internal :
    (List ℕ → IndexNode → TreeAction (Unit {0}))
    → ℕ
    → IndexNode
    → IndexNode
    → ℕ
    → List ℕ
    → TreeAction (Unit {0})
take_or_join_internal fix least node parent i path = do
  left ← sibling false (child_before i parent.children)
  if has_more_than least left
      then elim left [
        | none ↦ raise logic_error
        | some left ↦ do (left, node) ← move_child_right left node; write_both left node parent path
      ]
      else do
        right ← sibling false (child_at (suc i) parent.children)
        if has_more_than least right
            then elim right [
              | none ↦ raise logic_error
              | some right ↦ do
                (node, right) ← move_child_left node right
                write_both node right parent path
            ]
            else elim left [
              | some left ↦ join_internals fix left node parent (i - 1) path
              | none ↦ elim right [
                | some right ↦ join_internals fix node right parent i path
                | none ↦ raise logic_error
              ]
            ]

-- The path from the node to the root.
unfoldable pub fix_internal_underflow : List ℕ → IndexNode → TreeAction (Unit {0})
fix_internal_underflow [] node = raise logic_error
fix_internal_underflow (last ∷ path) node = do
  require (not node.is_leaf) logic_error
  require (last == node.page_id) logic_error
  root ← is_root node
  if root
      then (if length node.children == 1
          then promote_single_child_root node
          else write_rebuilt node)
      else do
        (parent, i) ← parent_of node path
        kind ← kind_of
        take_or_join_internal (λ _. fix_internal_underflow path) (min_internal_key_count kind) node
            parent i path

unfoldable pub take_or_join_leaf : ℕ → IndexNode → IndexNode → ℕ → List ℕ → TreeAction (Unit {0})
take_or_join_leaf least leaf parent i path = do
  left ← sibling true (child_before i parent.children)
  if has_more_than least left
      then elim left [
        | none ↦ raise logic_error
        | some left ↦
            let (giver, taker) = last_to_right left leaf in write_both giver taker parent path
      ]
      else do
        right ← sibling true (child_at (suc i) parent.children)
        if has_more_than least right
            then elim right [
              | none ↦ raise logic_error
              | some right ↦
                  let (taker, giver) = first_to_left leaf right in
                  write_both taker giver parent path
            ]
            else elim left [
              | some left ↦ join_leaves fix_internal_underflow left leaf parent (i - 1) path
              | none ↦ elim right [
                | some right ↦ join_leaves fix_internal_underflow leaf right parent i path
                | none ↦ raise logic_error
              ]
            ]

unfoldable pub fix_leaf_underflow : IndexNode → List ℕ → TreeAction (Unit {0})
fix_leaf_underflow leaf [] = raise logic_error
fix_leaf_underflow leaf (last ∷ path) = do
  require leaf.is_leaf logic_error
  require (last == leaf.page_id) logic_error
  root ← is_root leaf
  if root then write_node leaf else do
    (parent, i) ← parent_of leaf path
    kind ← kind_of
    take_or_join_leaf (min_leaf_key_count kind) leaf parent i path
