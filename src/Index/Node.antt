-- ===== src/Index/Node.antt =====
-- `serialize_node` and `deserialize_node` of index/src/bstarplus_tree_index.cpp.
pub mod Written
pub mod Reads
pub mod RoundTrip
use dbms_project_sp.Base.{
  ℕ, zero, suc, ◌+◌, ◌-◌, ◌*◌, ◌^◌, Bool, true, false, not, ◌||◌, List, [], ◌∷◌, ◌++◌, length,
  replicate, if◌then◌else◌, ltb, ◌==◌, Bytes, Result, ok, err, ◌>>=◌, ◌>>◌, guard,
}
use dbms_project_sp.Index.Scalar.{
  IndexError, length_error, invalid_argument, runtime_error, page_size, write_scalar, read_scalar,
}
use dbms_project_sp.Index.Key.{
  IndexKey, IndexKeyKind, validate_key_kind, serialized_key_size, write_key, read_key,
}

pub record IndexNode : Type 0 where
  pub is_leaf : Bool
  pub page_id : ℕ
  pub next_leaf_page_id : ℕ
  pub keys : List IndexKey
  pub children : List ℕ
  pub records : List ℕ

abbrev pub index_node_magic : ℕ
index_node_magic = 0x31495042

abbrev pub index_node_version : ℕ
index_node_version = 1

abbrev pub header_size : ℕ
header_size = 32

-- The greatest value of `uint32_t`.
abbrev pub max_count : ℕ
max_count = 4294967295

abbrev pub is_empty : List ℕ → Bool
is_empty [] = true
is_empty (x ∷ xs) = false

unfoldable pub validate_node_shape : IndexNode → Result IndexError (Unit {0})
validate_node_shape node =
    guard (not (ltb max_count (length node.keys))) length_error
    >> (if node.is_leaf
        then guard (is_empty node.children) invalid_argument
          >> guard (length node.records == length node.keys) invalid_argument
        else guard (is_empty node.records) invalid_argument
          >> guard (length node.children == suc (length node.keys)) invalid_argument)

unfoldable pub validate_node_keys : List IndexKey → IndexKeyKind → Result IndexError (Unit {0})
validate_node_keys [] kind = ok tt
validate_node_keys (key ∷ keys) kind = validate_key_kind key kind >> validate_node_keys keys kind

abbrev pub payload : IndexNode → List ℕ
payload node = if node.is_leaf then node.records else node.children

-- The sizes of the keys.
unfoldable pub keys_size : List IndexKey → IndexKeyKind → Result IndexError ℕ
keys_size [] kind = ok 0
keys_size (key ∷ keys) kind = validate_key_kind key kind >> serialized_key_size key >>= λ size.
    keys_size keys kind >>= λ rest. ok (size + rest)

-- A record is counted with a page id and a slot id, and written as a page id alone.
unfoldable pub serialized_node_size : IndexNode → IndexKeyKind → Result IndexError ℕ
serialized_node_size node kind =
    guard (not (ltb max_count (length (payload node)))) length_error
    >> keys_size node.keys kind
    >>= λ size. ok (header_size + size + length (payload node) * (if node.is_leaf then 10 else 8))

abbrev pub node_type : Bool → ℕ
node_type leaf = if leaf then 1 else 0

unfoldable pub write_header : IndexNode → Result IndexError Bytes
write_header node =
    write_scalar 4 index_node_magic []
    >>= write_scalar 2 index_node_version
    >>= write_scalar 1 (node_type node.is_leaf)
    >>= write_scalar 1 0
    >>= write_scalar 8 node.page_id
    >>= write_scalar 8 node.next_leaf_page_id
    >>= write_scalar 4 (length node.keys)
    >>= write_scalar 4 (length (payload node))

unfoldable pub write_keys : List IndexKey → Bytes → Result IndexError Bytes
write_keys [] page = ok page
write_keys (key ∷ keys) page = write_key key page >>= write_keys keys

unfoldable pub write_numbers : List ℕ → Bytes → Result IndexError Bytes
write_numbers [] page = ok page
write_numbers (n ∷ ns) page = write_scalar 8 n page >>= write_numbers ns

abbrev pub fill_page : Bytes → Bytes
fill_page page = page ++ replicate (page_size - length page) 0

unfoldable pub serialize_node : IndexNode → IndexKeyKind → Result IndexError Bytes
serialize_node node kind =
    validate_node_shape node
    >> validate_node_keys node.keys kind
    >> serialized_node_size node kind
    >>= λ size.
        guard (not (ltb page_size size)) length_error
        >> write_header node
        >>= write_keys node.keys
        >>= write_numbers (payload node)
        >>= λ page. ok (fill_page page)

-- The fields of a page before the keys.
pub record Header : Type 0 where
  pub leaf : Bool
  pub own_page : ℕ
  pub next_page : ℕ
  pub key_count : ℕ
  pub payload_count : ℕ

unfoldable pub read_header : Bytes → Result IndexError (Header × Bytes)
read_header page = read_scalar 4 page >>= λ (magic, after_magic).
    guard (magic == index_node_magic) runtime_error
    >> read_scalar 2 after_magic
    >>= λ (version, after_version).
        guard (version == index_node_version) runtime_error
        >> read_scalar 1 after_version
        >>= λ (kind, after_kind). read_scalar 1 after_kind >>= λ (reserved, after_reserved).
            guard (kind == 0 || kind == 1) runtime_error
            >> read_scalar 8 after_reserved
            >>= λ (own, after_own). read_scalar 8 after_own >>= λ (next, after_next).
                read_scalar 4 after_next >>= λ (keys, after_keys).
                read_scalar 4 after_keys >>= λ (payload, rest). ok (
                  record {
                    leaf = kind == 1;
                    own_page = own;
                    next_page = next;
                    key_count = keys;
                    payload_count = payload;
                  },
                  rest,
                )

unfoldable pub read_keys : ℕ → IndexKeyKind → Bytes → Result IndexError (List IndexKey × Bytes)
read_keys zero kind page = ok ([], page)
read_keys (suc count) kind page = read_key kind page >>= λ (key, after_key).
    read_keys count kind after_key >>= λ (keys, rest). ok (key ∷ keys, rest)

unfoldable pub read_numbers : ℕ → Bytes → Result IndexError (List ℕ × Bytes)
read_numbers zero page = ok ([], page)
read_numbers (suc count) page = read_scalar 8 page >>= λ (n, after_n).
    read_numbers count after_n >>= λ (ns, rest). ok (n ∷ ns, rest)

abbrev pub make_node : Header → List IndexKey → List ℕ → IndexNode
make_node h keys numbers = record {
  is_leaf = h.leaf;
  page_id = h.own_page;
  next_leaf_page_id = h.next_page;
  keys = keys;
  children = if h.leaf then [] else numbers;
  records = if h.leaf then numbers else [];
}

unfoldable pub read_body : Header → IndexKeyKind → Bytes → Result IndexError IndexNode
read_body h kind page = read_keys h.key_count kind page >>= λ (keys, after_keys).
    guard (h.payload_count == (if h.leaf then h.key_count else suc h.key_count)) runtime_error
    >> read_numbers h.payload_count after_keys
    >>= λ (numbers, rest).
        let node = make_node h keys numbers in validate_node_shape node >> ok node

unfoldable pub deserialize_node : Bytes → IndexKeyKind → Result IndexError IndexNode
deserialize_node page kind =
    guard (length page == page_size) invalid_argument >> read_header page >>= λ (h, rest).
    guard (not (ltb (length page) h.key_count || ltb (length page) h.payload_count)) runtime_error
    >> read_body h kind rest
