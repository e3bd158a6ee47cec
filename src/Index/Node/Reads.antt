-- ===== src/Index/Node/Reads.antt =====
-- The bytes of a node are read as its header, its keys and its numbers.
use dbms_project_sp.Base.{
  ℕ, suc, ◌^◌, ◌<◌, ◌≡◌, refl, ap, ap₂, ◌∙◌, Bool, true, false, not, ◌||◌, List, [], ◌∷◌, ◌++◌,
  length, if◌then◌else◌, ltb, ◌==◌, ==_iff, Bytes, arith, All, Result, ok, ◌>>=◌, ◌>>◌, guard,
  >>-ok, guard-ok,
}
use dbms_project_sp.Index.Scalar.{
  IndexError, length_error, invalid_argument, runtime_error, bytes_of, read_scalar,
  read_scalar-bytes_of,
}
use dbms_project_sp.Index.Key.{
  IndexKey, IndexKeyKind, KeyInRange, key_matches_kind, validate_key_kind, read_key, key_bytes,
  read_key-key_bytes,
}
use dbms_project_sp.Index.Node.{
  IndexNode, Header, is_empty, index_node_magic, index_node_version, payload, node_type, max_count,
  validate_node_shape, read_header, read_keys, read_numbers, read_body, make_node, keys_size,
}
use dbms_project_sp.Index.Node.Written.{header_bytes, keys_bytes, numbers_bytes, keys_size-cons}

pub ok-then :
    {A B : Type 0} {m : Result IndexError A} {a : A}
    → m ≡ ok a
    → (f : A → Result IndexError B) {r : Result IndexError B} → f a ≡ r
    → (m >>= f) ≡ r
ok-then e f h = ap (λ x. x >>= f) e ∙ h

module _ {B : Type 0} where
  scalar-then :
      (size n : ℕ) (rest : Bytes) (f : ℕ × Bytes → Result IndexError B) {r : Result IndexError B}
      → n < 256 ^ size
      → f (n, rest) ≡ r
      → (read_scalar size (bytes_of size n ++ rest) >>= f) ≡ r
  scalar-then size n rest f l h = ap (λ x. x >>= f) (read_scalar-bytes_of size n rest l) ∙ h

  key-then :
      (key : IndexKey) (kind : IndexKeyKind) (rest : Bytes)
      (f : IndexKey × Bytes → Result IndexError B) {r : Result IndexError B}
      → read_key kind (key_bytes key ++ rest) ≡ ok (key, rest)
      → f (key, rest) ≡ r
      → (read_key kind (key_bytes key ++ rest) >>= f) ≡ r
  key-then key kind rest f e h = ap (λ x. x >>= f) e ∙ h

read_numbers-bytes :
    (ns : List ℕ) (rest : Bytes)
    → All (λ n. n < 256 ^ 8) ns
    → read_numbers (length ns) (numbers_bytes ns rest) ≡ ok (ns, rest)
unfolding read_numbers numbers_bytes
read_numbers-bytes [] rest h = refl
read_numbers-bytes (n ∷ ns) rest h =
    scalar-then 8 n (numbers_bytes ns rest) _ h.0
      (ap (λ r. r >>= λ (p : List ℕ × Bytes). ok (n ∷ p.0, p.1)) (read_numbers-bytes ns rest h.1))

read_keys-bytes :
    (keys : List IndexKey) (kind : IndexKeyKind) (rest : Bytes) {size : ℕ}
    → keys_size keys kind ≡ ok size
    → All KeyInRange keys
    → read_keys (length keys) kind (keys_bytes keys rest) ≡ ok (keys, rest)
unfolding read_keys keys_bytes validate_key_kind
read_keys-bytes [] kind rest h r = refl
read_keys-bytes (key ∷ keys) kind rest h r =
    let (valid, first, sized, others, more, total) = keys_size-cons key keys kind h in
    key-then key kind (keys_bytes keys rest) _
      (read_key-key_bytes key kind (keys_bytes keys rest) r.0
        (guard-ok (key_matches_kind key kind) invalid_argument valid) sized)
      (ap (λ m. m >>= λ (p : List IndexKey × Bytes). ok (key ∷ p.0, p.1))
        (read_keys-bytes keys kind rest more r.1))

abbrev pub header_of : IndexNode → Header
header_of node = record {
  leaf = node.is_leaf;
  own_page = node.page_id;
  next_page = node.next_leaf_page_id;
  key_count = length node.keys;
  payload_count = length (payload node);
}

node_type-bound : (leaf : Bool) → node_type leaf < 256 ^ 1
node_type-bound true = omega arith
node_type-bound false = omega arith

node_type-valid : (leaf : Bool) → (node_type leaf == 0 || node_type leaf == 1) ≡ true
node_type-valid true = refl
node_type-valid false = refl

node_type-leaf : (leaf : Bool) → (node_type leaf == 1) ≡ leaf
node_type-leaf true = refl
node_type-leaf false = refl

pub guard-then :
    {A B : Type 0} (b : Bool) (e : IndexError) (m : Result IndexError A)
    (f : A → Result IndexError B) {r : Result IndexError B}
    → b ≡ true
    → (m >>= f) ≡ r
    → (guard b e >> m >>= f) ≡ r
guard-then true e m f h k = k
guard-then false e m f h k = absurd (ground arith)

-- The numbers of a node are numbers of the machine.
pub record IsMachine (node : IndexNode) : Type 0 where
  pub own : node.page_id < 2 ^ 64
  pub next : node.next_leaf_page_id < 2 ^ 64
  pub in_keys : All KeyInRange node.keys
  pub in_payload : All (λ n. n < 2 ^ 64) (payload node)

pub read_header-bytes :
    (node : IndexNode) (rest : Bytes)
    → IsMachine node
    → length node.keys < 256 ^ 4
    → length (payload node) < 256 ^ 4
    → read_header (header_bytes node rest) ≡ ok (header_of node, rest)
unfolding read_header header_bytes
read_header-bytes node rest w k p =
    let leaf = node_type node.is_leaf in
    let keys = length node.keys in
    let count = length (payload node) in
    let after_keys = bytes_of 4 count ++ rest in
    let after_next = bytes_of 4 keys ++ after_keys in
    let after_own = bytes_of 8 node.next_leaf_page_id ++ after_next in
    let after_reserved = bytes_of 8 node.page_id ++ after_own in
    let after_kind = bytes_of 1 0 ++ after_reserved in
    scalar-then 4 index_node_magic
      (bytes_of 2 index_node_version ++ (bytes_of 1 leaf ++ after_kind)) _ (omega arith)
      (scalar-then 2 index_node_version (bytes_of 1 leaf ++ after_kind) _ (omega arith) (
        scalar-then 1 leaf after_kind _ (node_type-bound node.is_leaf) (
          scalar-then 1 0 after_reserved _ (omega arith) (
            guard-then (leaf == 0 || leaf == 1) runtime_error _ _ (node_type-valid node.is_leaf) (
              scalar-then 8 node.page_id after_own _ w.own (
                scalar-then 8 node.next_leaf_page_id after_next _ w.next (
                  scalar-then 4 keys after_keys _ k (
                    scalar-then 4 count rest _ p (
                      ap
                        (λ (b : Bool). ok (
                          record {
                            leaf = b;
                            own_page = node.page_id;
                            next_page = node.next_leaf_page_id;
                            key_count = keys;
                            payload_count = count;
                          },
                          rest,
                        ))
                        (node_type-leaf node.is_leaf))))))))))

shape-fields :
    (leaf : Bool) (keys : List IndexKey) (children records : List ℕ)
    → (if leaf
        then guard (is_empty children) invalid_argument
          >> guard (length records == length keys) invalid_argument
        else guard (is_empty records) invalid_argument
          >> guard (length children == suc (length keys)) invalid_argument)
      ≡ ok tt
    → let numbers = if leaf then records else children in
      (length numbers ≡ (if leaf then length keys else suc (length keys)))
      × ((if leaf then [] else numbers) ≡ children)
      × ((if leaf then numbers else []) ≡ records)
shape-fields true keys [] records h = (ground arith, refl, refl)
shape-fields true keys (c ∷ children) records h = absurd (ground arith)
shape-fields false keys children [] h = (ground arith, refl, refl)
shape-fields false keys children (r ∷ records) h = absurd (ground arith)

module _ (node : IndexNode) (shaped : validate_node_shape node ≡ ok tt) where
  pub fields :
      (length (payload node) ≡ (if node.is_leaf then length node.keys else suc (length node.keys)))
      × ((if node.is_leaf then [] else payload node) ≡ node.children)
      × ((if node.is_leaf then payload node else []) ≡ node.records)
  unfolding validate_node_shape
  fields =
      shape-fields node.is_leaf node.keys node.children node.records
        (>>-ok (guard (not (ltb max_count (length node.keys))) length_error) _ shaped).1

  node_made : make_node (header_of node) node.keys (payload node) ≡ node
  node_made =
      ap₂
        (λ children records. record {
          is_leaf = node.is_leaf;
          page_id = node.page_id;
          next_leaf_page_id = node.next_leaf_page_id;
          keys = node.keys;
          children = children;
          records = records;
        })
        fields.1 fields.2

  pub read_body-bytes :
      (kind : IndexKeyKind) (rest : Bytes) {size : ℕ}
      → keys_size node.keys kind ≡ ok size
      → IsMachine node
      → read_body (header_of node) kind (keys_bytes node.keys (numbers_bytes (payload node) rest))
        ≡ ok node
  unfolding read_body
  read_body-bytes kind rest sized w =
      ok-then (read_keys-bytes node.keys kind (numbers_bytes (payload node) rest) sized w.in_keys) _
        (guard-then (length (payload node) == _) runtime_error
          (read_numbers (length (payload node)) (numbers_bytes (payload node) rest)) _
          ((==_iff (length (payload node)) _).1 fields.0)
          (ok-then (read_numbers-bytes (payload node) rest w.in_payload) _
            (ap (λ n. validate_node_shape n >> ok n) node_made ∙ ap (λ m. m >> ok node) shaped)))
