-- ===== src/Index/Node/Written.antt =====
-- The bytes that a node is written as, and that they are written.
use dbms_project_sp.Base.{
  ℕ, ◌+◌, ◌*◌, ◌≤◌, ◌≡◌, refl, sym, ap, ◌∙◌, append_assoc, append-nil, List, [], ◌∷◌, ◌++◌, length,
  length-append, Bytes, arith, ok, ◌>>=◌, ◌>>◌, >>-ok, >>=-ok,
}
use dbms_project_sp.Index.Scalar.{
  page_size, bytes_of, length-bytes_of, write_scalar, write_scalar-fits,
}
use dbms_project_sp.Index.Key.{
  IndexKey, IndexKeyKind, validate_key_kind, serialized_key_size, key_bytes,
  serialized_key_size-key_bytes, write_key-fits,
}
use dbms_project_sp.Index.Node.{
  IndexNode, index_node_magic, index_node_version, payload, node_type, write_header, write_keys,
  write_numbers, keys_size,
}

-- The fields in front of `rest`.
unfoldable pub header_bytes : IndexNode → Bytes → Bytes
header_bytes node rest =
    bytes_of 4 index_node_magic
    ++ (bytes_of 2 index_node_version
        ++ (bytes_of 1 (node_type node.is_leaf)
            ++ (bytes_of 1 0
                ++ (bytes_of 8 node.page_id
                    ++ (bytes_of 8 node.next_leaf_page_id
                        ++ (bytes_of 4 (length node.keys)
                            ++ (bytes_of 4 (length (payload node)) ++ rest)))))))

unfoldable pub keys_bytes : List IndexKey → Bytes → Bytes
keys_bytes [] rest = rest
keys_bytes (key ∷ keys) rest = key_bytes key ++ keys_bytes keys rest

unfoldable pub numbers_bytes : List ℕ → Bytes → Bytes
numbers_bytes [] rest = rest
numbers_bytes (n ∷ ns) rest = bytes_of 8 n ++ numbers_bytes ns rest

pub header-append :
    (node : IndexNode) (rest : Bytes) → header_bytes node [] ++ rest ≡ header_bytes node rest
unfolding header_bytes bytes_of
header-append node rest = refl

pub header-length : (node : IndexNode) → length (header_bytes node []) ≡ 32
unfolding header_bytes bytes_of
header-length node = refl

pub write_header-bytes : (node : IndexNode) → write_header node ≡ ok (header_bytes node [])
unfolding write_header write_scalar header_bytes bytes_of
write_header-bytes node = refl

pub keys-append :
    (keys : List IndexKey) (rest : Bytes) → keys_bytes keys [] ++ rest ≡ keys_bytes keys rest
unfolding keys_bytes
keys-append [] rest = refl
keys-append (key ∷ keys) rest =
    append_assoc (key_bytes key) (keys_bytes keys []) rest
    ∙ ap (λ t. key_bytes key ++ t) (keys-append keys rest)

pub numbers-append :
    (ns : List ℕ) (rest : Bytes) → numbers_bytes ns [] ++ rest ≡ numbers_bytes ns rest
unfolding numbers_bytes
numbers-append [] rest = refl
numbers-append (n ∷ ns) rest =
    append_assoc (bytes_of 8 n) (numbers_bytes ns []) rest
    ∙ ap (λ t. bytes_of 8 n ++ t) (numbers-append ns rest)

pub numbers-length : (ns : List ℕ) → length (numbers_bytes ns []) ≡ 8 * length ns
unfolding numbers_bytes
numbers-length [] = refl
numbers-length (n ∷ ns) = omega (
  arith,
  length-append {0} (bytes_of 8 n) (numbers_bytes ns []),
  length-bytes_of 8 n,
  numbers-length ns,
)

pub write_numbers-bytes :
    (ns : List ℕ) (page : Bytes)
    → length page + 8 * length ns ≤ page_size
    → write_numbers ns page ≡ ok (page ++ numbers_bytes ns [])
unfolding write_numbers numbers_bytes
write_numbers-bytes [] page h = ap ok (sym (append-nil page))
write_numbers-bytes (n ∷ ns) page h =
    ap (λ r. r >>= write_numbers ns) (write_scalar-fits 8 n page (omega (arith, h)))
    ∙ write_numbers-bytes ns (page ++ bytes_of 8 n)
        (omega (arith, h, length-append {0} page (bytes_of 8 n), length-bytes_of 8 n))
    ∙ ap ok (append_assoc page (bytes_of 8 n) (numbers_bytes ns []))

-- The first key's size, and that of the others.
pub keys_size-cons :
    (key : IndexKey) (keys : List IndexKey) (kind : IndexKeyKind) {size : ℕ}
    → keys_size (key ∷ keys) kind ≡ ok size
    → (validate_key_kind key kind ≡ ok tt)
      × (first : ℕ) × (serialized_key_size key ≡ ok first)
      × (others : ℕ) × (keys_size keys kind ≡ ok others)
      × (first + others ≡ size)
unfolding keys_size
keys_size-cons key keys kind h =
    let (first, checked, more) =
      >>=-ok (validate_key_kind key kind >> serialized_key_size key) _ h in
    let (valid, sized) = >>-ok (validate_key_kind key kind) (serialized_key_size key) checked in
    let (others, rest, total) = >>=-ok (keys_size keys kind) _ more in
    (valid, first, sized, others, rest, ground arith)

pub keys-length :
    (keys : List IndexKey) (kind : IndexKeyKind) {size : ℕ}
    → keys_size keys kind ≡ ok size
    → length (keys_bytes keys []) ≡ size
unfolding keys_size keys_bytes
keys-length [] kind h = ground arith
keys-length (key ∷ keys) kind h =
    let (valid, first, sized, others, rest, total) = keys_size-cons key keys kind h in
    omega (
      arith,
      total,
      length-append {0} (key_bytes key) (keys_bytes keys []),
      serialized_key_size-key_bytes key sized,
      keys-length keys kind rest,
    )

pub write_keys-bytes :
    (keys : List IndexKey) (kind : IndexKeyKind) (page : Bytes) {size : ℕ}
    → keys_size keys kind ≡ ok size
    → length page + size ≤ page_size
    → write_keys keys page ≡ ok (page ++ keys_bytes keys [])
unfolding write_keys keys_bytes
write_keys-bytes [] kind page h l = ap ok (sym (append-nil page))
write_keys-bytes (key ∷ keys) kind page h l =
    let (valid, first, sized, others, rest, total) = keys_size-cons key keys kind h in
    ap (λ r. r >>= write_keys keys) (write_key-fits key page sized (omega (arith, l, total)))
    ∙ write_keys-bytes keys kind (page ++ key_bytes key) rest (
        omega (
          arith,
          l,
          total,
          length-append {0} page (key_bytes key),
          serialized_key_size-key_bytes key sized,
        ))
    ∙ ap ok (append_assoc page (key_bytes key) (keys_bytes keys []))
