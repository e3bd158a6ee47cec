-- ===== src/Index/Tree/Nodes.antt =====
-- The parts of `BStarPlusIndex` that insertion and erasure share: actions on the index, the walk to
-- the first leaf, and the keys of inner nodes.
use dbms_project_sp.Base.{
  ℕ, zero, suc, ◌+◌, ◌-◌, ◌*◌, ◌/◌, Bool, not, List, [], ◌∷◌, none, some, set, if◌then◌else◌, ltb,
  ◌==◌, Result, ok, err, guard,
}
use dbms_project_sp.Base.Action.{Action, pure, raise, gets, from_result, ◌>>=◌, ◌>>◌}
use dbms_project_sp.Base.Vector.{position_of}
use dbms_project_sp.Index.Scalar.{IndexError, runtime_error, logic_error, endless, page_size}
use dbms_project_sp.Index.Key.{IndexKey, IndexKeyKind, int64, string_key_size}
use dbms_project_sp.Index.Disk.{
  DiskPageManager, BStarPlusIndexMetadata, page_count, allocate_page, write_metadata,
}
use dbms_project_sp.Index.Node.{IndexNode, header_size, serialize_node}
use dbms_project_sp.Index.Tree.{BStarPlusIndex, node_at, written, fits}

abbrev pub TreeAction : Type 0 → Type 0
TreeAction A = Action BStarPlusIndex IndexError A

abbrev pub require : Bool → IndexError → TreeAction (Unit {0})
require b e = from_result (guard b e)

-- A change of the disk alone, and of the metadata alone.
abbrev pub on_disk : {A : Type 0} → Result IndexError (DiskPageManager × A) → TreeAction A
on_disk (ok (d, a)) t = (record t { disk_manager = d }, ok a)
on_disk (err e) t = (t, err e)

abbrev pub change_metadata :
    (BStarPlusIndexMetadata → BStarPlusIndexMetadata) → TreeAction (Unit {0})
change_metadata f t = (record t { metadata = f t.metadata }, ok tt)

abbrev pub kind_of : TreeAction IndexKeyKind
kind_of = gets (λ t. t.metadata.key_kind)

abbrev pub store_metadata : TreeAction (Unit {0})
store_metadata t = (record t { disk_manager = write_metadata t.metadata t.disk_manager }, ok tt)

abbrev pub new_page : TreeAction ℕ
new_page t = on_disk (allocate_page t.disk_manager) t

abbrev pub read_node : ℕ → TreeAction IndexNode
read_node id t = (t, node_at id t)

abbrev pub write_node : IndexNode → TreeAction (Unit {0})
write_node node t = on_disk (written node t) t

unfoldable pub node_fits_page : IndexNode → TreeAction Bool
node_fits_page node t = (t, fits (serialize_node node t.metadata.key_kind))

abbrev pub fixed_key_size : IndexKeyKind → ℕ
fixed_key_size int64 = 8
fixed_key_size _ = string_key_size

abbrev pub max_leaf_key_count : IndexKeyKind → ℕ
max_leaf_key_count int64 = (page_size - header_size) / (8 + 10)
max_leaf_key_count _ = (page_size - header_size) / (string_key_size + 10)

abbrev pub max_internal_key_count : IndexKeyKind → ℕ
max_internal_key_count int64 = (page_size - header_size - 8) / (8 + 8)
max_internal_key_count _ = (page_size - header_size - 8) / (string_key_size + 8)

abbrev at_least_one : ℕ → ℕ
at_least_one n = if ltb n 1 then 1 else n

abbrev pub min_leaf_key_count : IndexKeyKind → ℕ
min_leaf_key_count kind = at_least_one ((2 * max_leaf_key_count kind + 2) / 3)

abbrev pub min_internal_key_count : IndexKeyKind → ℕ
min_internal_key_count kind = at_least_one ((2 * max_internal_key_count kind + 2) / 3)

-- The sizes of the first two of three parts.
abbrev pub three_way_counts : ℕ → ℕ × ℕ
three_way_counts total = let first = (total + 2) / 3 in (first, (total - first + 1) / 2)

-- Down the first children to a leaf.
unfoldable pub leftmost_leaf : ℕ → IndexNode → TreeAction IndexNode
leftmost_leaf zero node = raise endless
leftmost_leaf (suc fuel) node = if node.is_leaf then pure node else elim node.children [
  | [] ↦ raise runtime_error
  | child ∷ children ↦ read_node child >>= leftmost_leaf fuel
]

abbrev leaf_below : ℕ → TreeAction IndexNode
leaf_below id = do
  node ← read_node id
  rounds ← gets (λ t. suc (page_count t.disk_manager))
  leftmost_leaf rounds node

abbrev first_key : List IndexKey → TreeAction IndexKey
first_key [] = raise runtime_error
first_key (key ∷ keys) = pure key

unfoldable pub subtree_min_key : ℕ → TreeAction IndexKey
subtree_min_key id = do leaf ← leaf_below id; first_key leaf.keys

unfoldable pub leftmost_leaf_page_id : ℕ → TreeAction ℕ
leftmost_leaf_page_id id = do leaf ← leaf_below id; pure leaf.page_id

unfoldable pub min_keys : List ℕ → TreeAction (List IndexKey)
min_keys [] = pure []
min_keys (child ∷ children) = do
  key ← subtree_min_key child
  keys ← min_keys children
  pure (key ∷ keys)

-- The node with its keys read anew from the children behind the first.
unfoldable pub rebuild_internal_keys : IndexNode → TreeAction IndexNode
rebuild_internal_keys node = do
  require (not node.is_leaf) logic_error
  elim node.children [
    | [] ↦ pure (record node { keys = [] })
    | first ∷ children ↦ do keys ← min_keys children; pure (record node { keys = keys })
  ]

-- The pages of a path stand from the last to the first, the root.
unfoldable pub propagate_from : ℕ → IndexKey → List ℕ → TreeAction (Unit {0})
propagate_from current key [] = pure tt
propagate_from current key (above ∷ path) = do
  parent ← read_node above
  require (not parent.is_leaf) logic_error
  elim (position_of current parent.children) [
    | none ↦ pure tt
    | some (suc i) ↦ write_node (record parent { keys = set parent.keys i key })
    | some zero ↦
        subtree_min_key parent.page_id >>= λ least. propagate_from parent.page_id least path
  ]

unfoldable pub propagate_subtree_min_change : ℕ → List ℕ → TreeAction (Unit {0})
propagate_subtree_min_change page (last ∷ above ∷ path) =
    if last == page
    then (do key ← subtree_min_key page; propagate_from page key (above ∷ path))
    else pure tt
propagate_subtree_min_change page _ = pure tt

abbrev lower : ℕ → ℕ
lower height = if ltb 1 height then height - 1 else 1

abbrev only_child : List ℕ → TreeAction ℕ
only_child (child ∷ []) = pure child
only_child _ = raise logic_error

unfoldable pub promote_single_child_root : IndexNode → TreeAction (Unit {0})
promote_single_child_root root = do
  require (not root.is_leaf) logic_error
  id ← only_child root.children
  child ← read_node id
  change_metadata (λ md. record md { root_page_id = child.page_id; height = lower md.height })
  first ← if child.is_leaf then pure child.page_id else leftmost_leaf_page_id child.page_id
  change_metadata (λ md. record md { first_leaf_page_id = first })
