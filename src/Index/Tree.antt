-- ===== src/Index/Tree.antt =====
-- `BStarPlusIndex` of index/src/bstarplus_tree_index.cpp: its state and the searches. A loop that
-- follows page ids has as many rounds as there are pages, and one more. A comparison of keys throws
-- where they are of two types, and `lower_bound` and `upper_bound` look at the keys from the first
-- on, which for sorted keys is what they do.
pub mod Nodes
pub mod Sort
pub mod Split
pub mod Grow
pub mod Underflow
pub mod Update
pub mod Reopened
pub mod Shape
pub mod Frame
pub mod Chosen
pub mod Found
pub mod Leaf
pub mod Searches
pub mod Written
pub mod Rewritten
pub mod Insertion
pub mod Emptied
pub mod Erasure
pub mod First
pub mod Whole
mod LongKey
pub mod Range
pub mod Tests
use dbms_project_sp.Base.{
  ℕ, zero, suc, ◌+◌, ◌-◌, ◌*◌, ◌/◌, ◌%◌, ◌^◌, Bool, true, false, not, ◌&&◌, ◌||◌, List, [], ◌∷◌,
  ◌++◌, Option, none, some, length, set, if◌then◌else◌, ltb, ◌==◌, Bytes, Result, ok, err, ◌>>=◌,
  ◌>>◌,
}
use dbms_project_sp.Index.Scalar.{
  IndexError, length_error, invalid_argument, runtime_error, logic_error, endless, page_size,
}
use dbms_project_sp.Index.Key.{
  IndexKey, IndexKeyKind, unknown, int64, string_key_size, key_less, keys_equal, validate_key_kind,
}
use dbms_project_sp.Index.Disk.{
  DiskPageManager, BStarPlusIndexMetadata, invalid_page_id, is_empty_index, empty_metadata,
  open_manager, read_metadata, page_count, read_page, write_page, allocate_page, write_metadata,
}
use dbms_project_sp.Index.Node.{IndexNode, header_size, serialize_node, deserialize_node}

pub record BStarPlusIndex : Type 0 where
  pub disk_manager : DiskPageManager
  pub metadata : BStarPlusIndexMetadata

-- The metadata of the file count, unless their kind is unknown: then the file is a new one.
abbrev pub load_as :
    IndexKeyKind
    → IndexKeyKind
    → BStarPlusIndexMetadata
    → DiskPageManager
    → Result IndexError BStarPlusIndex
load_as unknown unknown loaded d = err invalid_argument
load_as unknown kind loaded d =
    let md = record empty_metadata { key_kind = kind } in
    ok (record { disk_manager = write_metadata md d; metadata = md })
load_as known kind loaded d = ok (record { disk_manager = d; metadata = loaded })

-- The constructor, with the bytes of the file, if there is one.
unfoldable pub open_index : Option Bytes → IndexKeyKind → Result IndexError BStarPlusIndex
open_index file kind =
    open_manager file >>= λ d. let loaded = read_metadata d in load_as loaded.key_kind kind loaded d

unfoldable pub node_at : ℕ → BStarPlusIndex → Result IndexError IndexNode
node_at id t = read_page id t.disk_manager >>= λ page. deserialize_node page t.metadata.key_kind

unfoldable pub written : IndexNode → BStarPlusIndex → Result IndexError (DiskPageManager × Unit {0})
written node t = serialize_node node t.metadata.key_kind >>= λ page.
    write_page node.page_id page t.disk_manager >>= λ d. ok (d, tt)

-- Only `length_error` is caught.
abbrev pub fits : Result IndexError Bytes → Result IndexError Bool
fits (ok page) = ok true
fits (err length_error) = ok false
fits (err e) = err e

unfoldable pub upper_bound : IndexKey → List IndexKey → Result IndexError ℕ
upper_bound key [] = ok 0
upper_bound key (k ∷ keys) = key_less key k >>= λ less. elim less [
  | true ↦ ok 0
  | false ↦ upper_bound key keys >>= λ i. ok (suc i)
]

unfoldable pub lower_bound : IndexKey → List IndexKey → Result IndexError ℕ
lower_bound key [] = ok 0
lower_bound key (k ∷ keys) = key_less k key >>= λ less. elim less [
  | false ↦ ok 0
  | true ↦ lower_bound key keys >>= λ i. ok (suc i)
]

abbrev pub child_index_for_key : List IndexKey → IndexKey → Result IndexError ℕ
child_index_for_key keys key = upper_bound key keys

abbrev pub child_at : ℕ → List ℕ → Option ℕ
child_at i [] = none
child_at zero (child ∷ children) = some child
child_at (suc i) (child ∷ children) = child_at i children

-- The child to go to; a node has one more child than keys, and so it is there.
abbrev pub child_of : Option ℕ → Result IndexError ℕ
child_of none = err runtime_error
child_of (some child) = ok child

unfoldable pub child_for_key : List IndexKey → List ℕ → IndexKey → Result IndexError ℕ
child_for_key keys children key =
    child_index_for_key keys key >>= λ i. child_of (child_at i children)

-- The leaf for a key and the path to it.
unfoldable pub find_leaf_from :
    ℕ → IndexKey → ℕ → List ℕ → BStarPlusIndex → Result IndexError (IndexNode × List ℕ)
find_leaf_from zero key current path t = err endless
find_leaf_from (suc fuel) key current path t =
    if current == invalid_page_id
    then err runtime_error
    else node_at current t >>= λ node.
        if node.is_leaf
        then ok (node, current ∷ path)
        else child_for_key node.keys node.children key >>= λ child.
            find_leaf_from fuel key child (current ∷ path) t

unfoldable pub find_leaf : IndexKey → BStarPlusIndex → Result IndexError (IndexNode × List ℕ)
find_leaf key t = find_leaf_from (suc (page_count t.disk_manager)) key t.metadata.root_page_id [] t

-- The record at a position of the keys.
abbrev pub record_at : ℕ → List ℕ → Option ℕ
record_at i records = child_at i records

abbrev pub get_key : ℕ → List IndexKey → Option IndexKey
get_key i [] = none
get_key zero (key ∷ keys) = some key
get_key (suc i) (key ∷ keys) = get_key i keys

-- Whether the key stands at the position.
unfoldable pub stands_at : ℕ → IndexKey → List IndexKey → Result IndexError Bool
stands_at i key keys = elim (get_key i keys) [ none ↦ ok false | some k ↦ keys_equal k key ]

unfoldable pub find_in_leaf : IndexNode → IndexKey → Result IndexError (Option ℕ)
find_in_leaf leaf key = lower_bound key leaf.keys >>= λ i.
    stands_at i key leaf.keys >>= λ there. ok (if there then record_at i leaf.records else none)

unfoldable pub find_from : ℕ → IndexKey → ℕ → BStarPlusIndex → Result IndexError (Option ℕ)
find_from zero key current t = err endless
find_from (suc fuel) key current t =
    if current == invalid_page_id
    then ok none
    else node_at current t >>= λ node.
        if node.is_leaf
        then find_in_leaf node key
        else child_for_key node.keys node.children key >>= λ child. find_from fuel key child t

unfoldable pub find : IndexKey → BStarPlusIndex → Result IndexError (Option ℕ)
find key t =
    validate_key_kind key t.metadata.key_kind
    >> (if is_empty_index t.metadata
        then ok none
        else find_from (suc (page_count t.disk_manager)) key t.metadata.root_page_id t)

abbrev before : ℕ → List ℕ × Bool → List ℕ × Bool
before record_id (records, done) = (record_id ∷ records, done)

-- The records of one leaf, and whether the search ended in it.
unfoldable pub scan_leaf :
    IndexKey → IndexKey → List IndexKey → List ℕ → Result IndexError (List ℕ × Bool)
scan_leaf low high (k ∷ keys) (r ∷ records) = key_less k low >>= λ below. elim below [
  | true ↦ scan_leaf low high keys records
  | false ↦ key_less high k >>= λ above. elim above [
    | true ↦ ok ([], true)
    | false ↦ scan_leaf low high keys records >>= λ rest. ok (before r rest)
  ]
]
scan_leaf low high _ _ = ok ([], false)

unfoldable pub scan_leaves :
    ℕ → IndexKey → IndexKey → IndexNode → BStarPlusIndex → Result IndexError (List ℕ)
scan_leaves zero low high leaf t = err endless
scan_leaves (suc fuel) low high leaf t =
    if leaf.page_id == invalid_page_id || not (ltb leaf.page_id (page_count t.disk_manager))
    then ok []
    else scan_leaf low high leaf.keys leaf.records >>= λ (records, done).
        if done || leaf.next_leaf_page_id == invalid_page_id
        then ok records
        else node_at leaf.next_leaf_page_id t >>= λ next.
            scan_leaves fuel low high next t >>= λ rest. ok (records ++ rest)

unfoldable pub range_search : IndexKey → IndexKey → BStarPlusIndex → Result IndexError (List ℕ)
range_search low high t =
    validate_key_kind low t.metadata.key_kind
    >> (validate_key_kind high t.metadata.key_kind
        >> (if is_empty_index t.metadata
            then ok []
            else key_less high low >>= λ none_between.
                if none_between
                then ok []
                else find_leaf low t >>= λ (leaf, path).
                    scan_leaves (suc (page_count t.disk_manager)) low high leaf t))
