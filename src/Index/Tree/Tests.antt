-- ===== src/Index/Tree/Tests.antt =====
-- A tree of two leaves, in pages 0 and 1, below the root in page 2.
use dbms_project_sp.Base.{
  ℕ, ◌≡◌, ◌≤◌, ◌⊎◌, inl, refl, true, false, [], ◌∷◌, some, length, length-replicate, Bytes, arith,
  ok,
}
use dbms_project_sp.Base.Int.{pos}
use dbms_project_sp.Index.Scalar.{page_size}
use dbms_project_sp.Index.Key.{
  IndexKey, IndexKeyKind, validate_key_kind, key_matches_kind, serialized_key_size,
}
use dbms_project_sp.Index.Entries.{Entries}
use dbms_project_sp.Index.Disk.{
  invalid_page_id, zeros, read_page, validate_existing_page_id, page_offset,
}
use dbms_project_sp.Index.Node.{
  IndexNode, validate_node_shape, validate_node_keys, keys_size, serialized_node_size,
  serialize_node, deserialize_node,
}
use dbms_project_sp.Index.Node.Reads.{IsMachine}
use dbms_project_sp.Index.Node.RoundTrip.{deserialize-serialize}
use dbms_project_sp.Index.Tree.{BStarPlusIndex, node_at, find, range_search}
use dbms_project_sp.Index.Tree.Shape.{IsTree, IsLeaf}
use dbms_project_sp.Index.Tree.Rewritten.{OnDisk}
use dbms_project_sp.Index.Tree.Erasure.{EraseEnds}
use dbms_project_sp.Index.Tree.Whole.{
  Unwritten, find-IsIndex, range_search-IsIndex, insert-IsIndex, erase-IsIndex,
}
use dbms_project_sp.Index.Tree.Insertion.{InsertEnds}

abbrev pub key : ℕ → IndexKey
key n = IndexKey.int64 (pos n)

abbrev pub low_leaf : IndexNode
low_leaf = record {
  is_leaf = true;
  page_id = 0;
  next_leaf_page_id = 1;
  keys = key 1 ∷ key 3 ∷ [];
  children = [];
  records = 10 ∷ 30 ∷ [];
}

abbrev pub high_leaf : IndexNode
high_leaf = record {
  is_leaf = true;
  page_id = 1;
  next_leaf_page_id = 0xFFFFFFFFFFFFFFFF;
  keys = key 5 ∷ key 8 ∷ [];
  children = [];
  records = 50 ∷ 80 ∷ [];
}

abbrev pub root : IndexNode
root = record {
  is_leaf = false;
  page_id = 2;
  next_leaf_page_id = 0xFFFFFFFFFFFFFFFF;
  keys = key 5 ∷ [];
  children = 0 ∷ 1 ∷ [];
  records = [];
}

-- What a node of int64 keys needs to be written to a page.
pub record OnPage (node : IndexNode) : Type 0 where
  machine : IsMachine node
  shaped : validate_node_shape node ≡ ok tt
  checked : validate_node_keys node.keys IndexKeyKind.int64 ≡ ok tt
  size : ℕ
  sized : serialized_node_size node IndexKeyKind.int64 ≡ ok size
  small : size ≤ page_size

pub page_of :
    (node : IndexNode)
    → OnPage node
    → (page : Bytes) × (serialize_node node IndexKeyKind.int64 ≡ ok page)
      × (length page ≡ page_size)
      × (deserialize_node page IndexKeyKind.int64 ≡ ok node)
page_of node o =
    deserialize-serialize node IndexKeyKind.int64 o.size o.machine o.shaped o.checked o.sized
      o.small

pub low_leaf-OnPage : OnPage low_leaf
unfolding validate_node_shape validate_node_keys validate_key_kind key_matches_kind
    serialized_node_size keys_size serialized_key_size
low_leaf-OnPage = record {
  machine = record {
    own = omega arith;
    next = omega arith;
    in_keys = (omega arith, (omega arith, tt));
    in_payload = omega arith;
  };
  shaped = refl;
  checked = refl;
  size = 68;
  sized = refl;
  small = omega arith;
}

pub high_leaf-OnPage : OnPage high_leaf
unfolding validate_node_shape validate_node_keys validate_key_kind key_matches_kind
    serialized_node_size keys_size serialized_key_size
high_leaf-OnPage = record {
  machine = record {
    own = omega arith;
    next = omega arith;
    in_keys = (omega arith, (omega arith, tt));
    in_payload = omega arith;
  };
  shaped = refl;
  checked = refl;
  size = 68;
  sized = refl;
  small = omega arith;
}

pub root-OnPage : OnPage root
unfolding validate_node_shape validate_node_keys validate_key_kind key_matches_kind
    serialized_node_size keys_size serialized_key_size
root-OnPage = record {
  machine = record {
    own = omega arith;
    next = omega arith;
    in_keys = (omega arith, tt);
    in_payload = omega arith;
  };
  shaped = refl;
  checked = refl;
  size = 56;
  sized = refl;
  small = omega arith;
}

abbrev pub two_leaves : BStarPlusIndex
two_leaves = record {
  disk_manager = record {
    header = zeros page_size;
    pages =
        (page_of low_leaf low_leaf-OnPage).0
        ∷ (page_of high_leaf high_leaf-OnPage).0
        ∷ (page_of root root-OnPage).0
        ∷ [];
  };
  metadata = record {
    root_page_id = 2;
    first_leaf_page_id = 0;
    height = 2;
    size = 4;
    key_kind = IndexKeyKind.int64;
  };
}

abbrev low_entries : Entries
low_entries = (key 1, 10) ∷ (key 3, 30) ∷ []

abbrev high_entries : Entries
high_entries = (key 5, 50) ∷ (key 8, 80) ∷ []

abbrev pub four_entries : Entries
four_entries = (key 1, 10) ∷ (key 3, 30) ∷ (key 5, 50) ∷ (key 8, 80) ∷ []

low_leaf-IsLeaf : IsLeaf two_leaves 0 1 low_entries low_leaf
unfolding node_at read_page validate_existing_page_id page_offset
low_leaf-IsLeaf = record {
  read = (page_of low_leaf low_leaf-OnPage).3;
  is_leaf = refl;
  own = refl;
  following = refl;
  keys = refl;
  records = refl;
  no_children = refl;
  machine = low_leaf-OnPage.machine;
}

high_leaf-IsLeaf : IsLeaf two_leaves 1 invalid_page_id high_entries high_leaf
unfolding node_at read_page validate_existing_page_id page_offset
high_leaf-IsLeaf = record {
  read = (page_of high_leaf high_leaf-OnPage).3;
  is_leaf = refl;
  own = refl;
  following = refl;
  keys = refl;
  records = refl;
  no_children = refl;
  machine = high_leaf-OnPage.machine;
}

root_read : node_at 2 two_leaves ≡ ok root
unfolding node_at read_page validate_existing_page_id page_offset
root_read = (page_of root root-OnPage).3

pub two_leaves-IsTree : IsTree two_leaves four_entries
unfolding key_matches_kind
two_leaves-IsTree = record {
  above = 1;
  leaves = 2;
  first = 0;
  rooted = refl;
  pages = 2 ∷ 0 ∷ 1 ∷ [];
  tree = (
    root,
    0 ∷ 1 ∷ [],
    root_read,
    refl,
    refl,
    (
      low_entries,
      high_entries,
      1,
      1,
      1,
      0 ∷ [],
      1 ∷ [],
      (refl, refl, refl, low_leaf, low_leaf-IsLeaf),
      (refl, refl, refl, high_leaf, high_leaf-IsLeaf),
      refl,
      refl,
      refl,
      refl,
      (refl, (refl, tt)),
      (refl, (refl, tt)),
    ),
  );
  apart = (refl, (refl, (refl, tt)));
  is_first = refl;
  is_height = refl;
  path_fits = omega arith;
  leaves_fit = omega arith;
  counted = refl;
  sorted = ((refl, (refl, (refl, tt))), ((refl, (refl, tt)), ((refl, tt), (tt, tt))));
  of_kind = (refl, (refl, (refl, (refl, tt))));
}

two_leaves-OnDisk : OnDisk two_leaves
two_leaves-OnDisk = record {
  whole = record {
    header = length-replicate {A = ℕ} page_size 0;
    pages = (
      (page_of low_leaf low_leaf-OnPage).2,
      ((page_of high_leaf high_leaf-OnPage).2, ((page_of root root-OnPage).2, tt)),
    );
  };
  in_fields = record {
    root = omega arith;
    first = omega arith;
    height = omega arith;
    size = omega arith;
  };
}

find-IsIndex_example : find (key 5) two_leaves ≡ ok (some 50)
unfolding key_matches_kind
find-IsIndex_example = find-IsIndex two_leaves four_entries (key 5) (inl two_leaves-IsTree) refl

range_search-IsIndex_example : range_search (key 2) (key 5) two_leaves ≡ ok (30 ∷ 50 ∷ [])
unfolding key_matches_kind
range_search-IsIndex_example =
    range_search-IsIndex two_leaves four_entries (key 2) (key 5) (inl two_leaves-IsTree) refl refl

insert-IsIndex_example :
    InsertEnds two_leaves four_entries (key 4) 40 ⊎ Unwritten two_leaves four_entries (key 4) 40
unfolding key_matches_kind
insert-IsIndex_example =
    insert-IsIndex two_leaves four_entries (key 4) 40 (inl two_leaves-IsTree) two_leaves-OnDisk refl
      (omega arith) (omega arith) (omega arith) (omega arith)

-- A tree of one leaf, from which a key may be taken.
abbrev lone_leaf : IndexNode
lone_leaf = record low_leaf { next_leaf_page_id = 0xFFFFFFFFFFFFFFFF }

lone_leaf-OnPage : OnPage lone_leaf
unfolding validate_node_shape validate_node_keys validate_key_kind key_matches_kind
    serialized_node_size keys_size serialized_key_size
lone_leaf-OnPage = record {
  machine = record {
    own = omega arith;
    next = omega arith;
    in_keys = (omega arith, (omega arith, tt));
    in_payload = omega arith;
  };
  shaped = refl;
  checked = refl;
  size = 68;
  sized = refl;
  small = omega arith;
}

abbrev one_leaf : BStarPlusIndex
one_leaf = record {
  disk_manager = record {
    header = zeros page_size;
    pages = (page_of lone_leaf lone_leaf-OnPage).0 ∷ [];
  };
  metadata = record {
    root_page_id = 0;
    first_leaf_page_id = 0;
    height = 1;
    size = 2;
    key_kind = IndexKeyKind.int64;
  };
}

lone_leaf-IsLeaf : IsLeaf one_leaf 0 invalid_page_id low_entries lone_leaf
unfolding node_at read_page validate_existing_page_id page_offset
lone_leaf-IsLeaf = record {
  read = (page_of lone_leaf lone_leaf-OnPage).3;
  is_leaf = refl;
  own = refl;
  following = refl;
  keys = refl;
  records = refl;
  no_children = refl;
  machine = lone_leaf-OnPage.machine;
}

one_leaf-IsTree : IsTree one_leaf low_entries
unfolding key_matches_kind
one_leaf-IsTree = record {
  above = 0;
  leaves = 1;
  first = 0;
  rooted = refl;
  pages = 0 ∷ [];
  tree = (refl, refl, refl, lone_leaf, lone_leaf-IsLeaf);
  apart = (refl, tt);
  is_first = refl;
  is_height = refl;
  path_fits = omega arith;
  leaves_fit = omega arith;
  counted = refl;
  sorted = ((refl, tt), (tt, tt));
  of_kind = (refl, (refl, tt));
}

one_leaf-OnDisk : OnDisk one_leaf
one_leaf-OnDisk = record {
  whole = record {
    header = length-replicate {A = ℕ} page_size 0;
    pages = ((page_of lone_leaf lone_leaf-OnPage).2, tt);
  };
  in_fields = record {
    root = omega arith;
    first = omega arith;
    height = omega arith;
    size = omega arith;
  };
}

erase-IsIndex_example : EraseEnds one_leaf low_entries (key 3)
unfolding key_matches_kind
erase-IsIndex_example =
    erase-IsIndex one_leaf low_entries (key 3) (inl one_leaf-IsTree) one_leaf-OnDisk refl
