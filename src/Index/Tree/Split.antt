-- ===== src/Index/Tree/Split.antt =====
-- What `BStarPlusIndex` does with a node that has outgrown its page: it gives a key to a sibling, or
-- makes three nodes of two, or two of one, and puts the new node into the parent, which may outgrow
-- its page in turn. `again` stands for the call of `split_internal` for the parent and its path.
use dbms_project_sp.Base.{
  ℕ, zero, suc, ◌+◌, ◌/◌, Bool, true, false, not, ◌||◌, List, [], ◌∷◌, ◌++◌, map, none, some,
  length, if◌then◌else◌, ltb, ◌==◌, ◌%◌, ◌^◌,
}
use dbms_project_sp.Base.Action.{pure, raise, from_result, ◌>>=◌, ◌>>◌}
use dbms_project_sp.Base.Vector.{take, drop, insert_at, last_of, but_last, position_of}
use dbms_project_sp.Index.Scalar.{length_error, logic_error}
use dbms_project_sp.Index.Key.{IndexKey}
use dbms_project_sp.Index.Disk.{invalid_page_id}
use dbms_project_sp.Index.Node.{IndexNode}
use dbms_project_sp.Index.Tree.{child_at}
use dbms_project_sp.Index.Tree.Sort.{Items, items_of, sort_items}
use dbms_project_sp.Index.Tree.Nodes.{
  TreeAction, require, change_metadata, new_page, read_node, write_node, node_fits_page,
  three_way_counts, rebuild_internal_keys, propagate_subtree_min_change,
}

abbrev pub with_items : IndexNode → Items → IndexNode
with_items node items = record node {
  keys = map (λ item. item.0) items;
  records = map (λ item. item.1) items;
}

abbrev pub empty_node : Bool → ℕ → ℕ → IndexNode
empty_node leaf id next = record {
  is_leaf = leaf;
  page_id = id;
  next_leaf_page_id = next;
  keys = [];
  children = [];
  records = [];
}

abbrev pub has_keys : IndexNode → Bool
has_keys node = ltb 0 (length node.keys)

-- The second is looked at only where the first fits.
abbrev pub both_fit : IndexNode → IndexNode → TreeAction Bool
both_fit a b = do fit ← node_fits_page a; if fit then node_fits_page b else pure false

abbrev pub write_rebuilt : IndexNode → TreeAction (Unit {0})
write_rebuilt node = do rebuilt ← rebuild_internal_keys node; write_node rebuilt

-- The last key of the left leaf goes to the right one, and the first of the right to the left.
abbrev pub last_to_right : IndexNode → IndexNode → IndexNode × IndexNode
last_to_right left right = (
  record left { keys = but_last left.keys; records = but_last left.records },
  record right {
    keys = last_of left.keys ++ right.keys;
    records = last_of left.records ++ right.records;
  },
)

abbrev pub first_to_left : IndexNode → IndexNode → IndexNode × IndexNode
first_to_left left right = (
  record left {
    keys = left.keys ++ take 1 right.keys;
    records = left.records ++ take 1 right.records;
  },
  record right { keys = drop 1 right.keys; records = drop 1 right.records },
)

unfoldable pub try_give_to_right_leaf : IndexNode → IndexNode → ℕ → TreeAction Bool
try_give_to_right_leaf leaf parent i = elim (child_at (suc i) parent.children) [
  | none ↦ pure false
  | some id ↦ do
    right ← read_node id
    let (giver, taker) = last_to_right leaf right
    if not right.is_leaf || not (has_keys giver) then pure false else do
      fit ← both_fit taker giver
      if not fit
          then pure false
          else do write_node giver; write_node taker; write_rebuilt parent; pure true
]

unfoldable pub try_give_to_left_leaf : IndexNode → IndexNode → ℕ → TreeAction Bool
try_give_to_left_leaf leaf parent zero = pure false
try_give_to_left_leaf leaf parent (suc i) =
    if not (has_keys leaf) then pure false else elim (child_at i parent.children) [
      | none ↦ pure false
      | some id ↦ do
        left ← read_node id
        let (taker, giver) = first_to_left left leaf
        if not left.is_leaf || not (has_keys giver) then pure false else do
          fit ← both_fit taker giver
          if not fit
              then pure false
              else do write_node taker; write_node giver; write_rebuilt parent; pure true
    ]

unfoldable pub redistribute_leaf_pair :
    IndexNode → IndexNode → IndexNode → List ℕ → TreeAction (Unit {0})
redistribute_leaf_pair left right parent path = do
  require (left.is_leaf) logic_error
  require (right.is_leaf) logic_error
  items ← from_result (sort_items (items_of left ++ items_of right))
  let half = (length items + 1) / 2
  let left = record (with_items left (take half items)) { next_leaf_page_id = right.page_id }
  let right = with_items right (drop half items)
  fit ← both_fit left right
  require fit length_error
  write_node left
  write_node right
  write_rebuilt parent
  propagate_subtree_min_change parent.page_id path

-- The children of two nodes, in halves.
abbrev pub halved : IndexNode → IndexNode → TreeAction (IndexNode × IndexNode)
halved left right = do
  let children = left.children ++ right.children
  let half = (length children + 1) / 2
  left ← rebuild_internal_keys (record left { children = take half children })
  right ← rebuild_internal_keys (record right { children = drop half children })
  pure (left, right)

unfoldable pub redistribute_internal_pair :
    IndexNode → IndexNode → IndexNode → List ℕ → TreeAction (Unit {0})
redistribute_internal_pair left right parent path = do
  require (not (left.is_leaf || right.is_leaf)) logic_error
  (left, right) ← halved left right
  fit ← both_fit left right
  require fit length_error
  write_node left
  write_node right
  write_rebuilt parent
  propagate_subtree_min_change parent.page_id path

unfoldable pub try_redistribute_internal_with_right :
    IndexNode → IndexNode → ℕ → List ℕ → TreeAction Bool
try_redistribute_internal_with_right node parent i path = elim (child_at (suc i) parent.children) [
  | none ↦ pure false
  | some id ↦ do
    right ← read_node id
    if right.is_leaf then pure false else do
      (candidate_node, candidate_right) ← halved node right
      fit ← both_fit candidate_node candidate_right
      if not fit
          then pure false
          else do redistribute_internal_pair node right parent path; pure true
]

unfoldable pub try_redistribute_internal_with_left :
    IndexNode → IndexNode → ℕ → List ℕ → TreeAction Bool
try_redistribute_internal_with_left node parent zero path = pure false
try_redistribute_internal_with_left node parent (suc i) path = elim (child_at i parent.children) [
  | none ↦ pure false
  | some id ↦ do
    left ← read_node id
    if left.is_leaf then pure false else do
      (candidate_left, candidate_node) ← halved left node
      fit ← both_fit candidate_left candidate_node
      if not fit then pure false else do redistribute_internal_pair left node parent path; pure true
]

module _ (again : IndexNode → TreeAction (Unit {0})) where
  abbrev pub write_or_split : IndexNode → TreeAction (Unit {0})
  write_or_split parent = do
    fit ← node_fits_page parent
    if fit then write_node parent else again parent

  abbrev pub new_root : IndexNode → IndexKey → IndexNode → TreeAction (Unit {0})
  new_root left separator right = do
    id ← new_page
    write_node left
    write_node right
    write_node (record (empty_node false id invalid_page_id) {
      keys = separator ∷ [];
      children = left.page_id ∷ right.page_id ∷ [];
    })
    change_metadata (λ md. record md { root_page_id = id; height = suc md.height % 2 ^ 32 })

  abbrev pub insert_beside : ℕ → IndexNode → IndexKey → IndexNode → TreeAction (Unit {0})
  insert_beside above left separator right = do
    parent ← read_node above
    require (not parent.is_leaf) logic_error
    elim (position_of left.page_id parent.children) [
      | none ↦ raise logic_error
      | some i ↦ do
        write_node left
        write_node right
        parent ← rebuild_internal_keys (record parent {
          keys = insert_at i separator parent.keys;
          children = insert_at (suc i) right.page_id parent.children;
        })
        write_or_split parent
    ]

  unfoldable pub insert_into_parent :
      IndexNode → IndexKey → IndexNode → List ℕ → TreeAction (Unit {0})
  insert_into_parent left separator right [] = raise logic_error
  insert_into_parent left separator right (last ∷ path) = do
    require (last == left.page_id) logic_error
    elim path [
      | [] ↦ new_root left separator right
      | above ∷ rest ↦ insert_beside above left separator right
    ]

  abbrev pub put_middle : ℕ → IndexNode → ℕ → TreeAction (Unit {0})
  put_middle middle parent i = do
    parent ←
        rebuild_internal_keys
          (record parent { children = insert_at (suc i) middle parent.children })
    write_or_split parent

  unfoldable pub split_leaf_pair : IndexNode → IndexNode → IndexNode → ℕ → TreeAction (Unit {0})
  split_leaf_pair left right parent i = do
    items ← from_result (sort_items (items_of left ++ items_of right))
    id ← new_page
    let (first, second) = three_way_counts (length items)
    let left = record (with_items left (take first items)) { next_leaf_page_id = id }
    let middle = with_items (empty_node true id right.page_id) (take second (drop first items))
    let right = with_items right (drop (first + second) items)
    require (has_keys left) logic_error
    require (has_keys middle) logic_error
    require (has_keys right) logic_error
    write_node left
    write_node middle
    write_node right
    put_middle id parent i

  unfoldable pub split_internal_pair : IndexNode → IndexNode → IndexNode → ℕ → TreeAction (Unit {0})
  split_internal_pair left right parent i = do
    require (not (left.is_leaf || right.is_leaf)) logic_error
    let children = left.children ++ right.children
    id ← new_page
    let (first, second) = three_way_counts (length children)
    left ← rebuild_internal_keys (record left { children = take first children })
    middle ← rebuild_internal_keys (record (empty_node false id invalid_page_id) {
      children = take second (drop first children);
    })
    right ← rebuild_internal_keys (record right { children = drop (first + second) children })
    fit ← both_fit left middle
    fit_right ← if fit then node_fits_page right else pure false
    require fit_right length_error
    write_node left
    write_node middle
    write_node right
    put_middle id parent i
