-- ===== src/Index/Node/RoundTrip.antt =====
-- A node that fits a page is written to one, and read back from it.
use dbms_project_sp.Base.{
  ℕ, zero, suc, ◌+◌, ◌-◌, ◌*◌, ◌≤◌, ◌≡◌, refl, ap, ◌∙◌, append_assoc, Bool, true, false, not, ◌||◌,
  [], ◌++◌, length, length-append, length-replicate, replicate, if◌then◌else◌, ltb, ◌==◌, ==_iff,
  Bytes, arith, ok, ◌>>◌, guard, >>-ok, >>=-ok,
}
use dbms_project_sp.Index.Scalar.{length_error, invalid_argument, runtime_error, page_size}
use dbms_project_sp.Index.Key.{IndexKeyKind}
use dbms_project_sp.Index.Node.{
  IndexNode, payload, max_count, validate_node_shape, validate_node_keys, serialized_node_size,
  serialize_node, deserialize_node, read_header, write_header, write_keys, write_numbers, read_body,
  fill_page, keys_size,
}
use dbms_project_sp.Index.Node.Written.{
  header_bytes, keys_bytes, numbers_bytes, header-append, header-length, keys-append, keys-length,
  numbers-append, numbers-length, write_header-bytes, write_keys-bytes, write_numbers-bytes,
}
use dbms_project_sp.Index.Node.Reads.{
  ok-then, IsMachine, header_of, read_header-bytes, fields, read_body-bytes,
}

-- What the size of a node says of its parts.
record Sized (node : IndexNode) (kind : IndexKeyKind) : Type 0 where
  key_bytes_size : ℕ
  keys_sized : keys_size node.keys kind ≡ ok key_bytes_size
  fits_page : 32 + key_bytes_size + 8 * length (payload node) ≤ page_size

payload-size : (leaf : Bool) (n : ℕ) → 8 * n ≤ n * (if leaf then 10 else 8)
payload-size true n = omega arith
payload-size false n = omega arith

serialized_node_size-Sized :
    (node : IndexNode) (kind : IndexKeyKind) {size : ℕ}
    → serialized_node_size node kind ≡ ok size
    → size ≤ page_size
    → Sized node kind
unfolding serialized_node_size
serialized_node_size-Sized node kind {size} h l =
    let (keys, checked, total) =
      >>=-ok
        (guard (not (ltb max_count (length (payload node)))) length_error
          >> keys_size node.keys kind)
        _ h in
    let sum : 32 + keys + length (payload node) * (if node.is_leaf then 10 else 8) ≡ size =
      ground arith in
    record {
      key_bytes_size = keys;
      keys_sized =
          (>>-ok (guard (not (ltb max_count (length (payload node)))) length_error) _ checked).1;
      fits_page = omega (arith, sum, l, payload-size node.is_leaf (length (payload node)));
    }

keys-fewer : (leaf : Bool) (n m : ℕ) → m ≡ (if leaf then n else suc n) → n ≤ m
keys-fewer true n m h = omega (arith, h)
keys-fewer false n m h = omega (arith, h)

module _ (node : IndexNode) (kind : IndexKeyKind) (s : Sized node kind) where
  written : Bytes
  written = (header_bytes node [] ++ keys_bytes node.keys []) ++ numbers_bytes (payload node) []

  written-length : length written ≡ 32 + s.key_bytes_size + 8 * length (payload node)
  unfolding written
  written-length = omega (
    arith,
    length-append {0} (header_bytes node [] ++ keys_bytes node.keys [])
        (numbers_bytes (payload node) []),
    length-append {0} (header_bytes node []) (keys_bytes node.keys []),
    header-length node,
    keys-length node.keys kind s.keys_sized,
    numbers-length (payload node),
  )

  fill_page-bytes :
      (rest : Bytes)
      → written ++ rest
        ≡ header_bytes node (keys_bytes node.keys (numbers_bytes (payload node) rest))
  unfolding written
  fill_page-bytes rest =
      append_assoc (header_bytes node [] ++ keys_bytes node.keys [])
        (numbers_bytes (payload node) []) rest
      ∙ ap (λ t. (header_bytes node [] ++ keys_bytes node.keys []) ++ t)
          (numbers-append (payload node) rest)
      ∙ append_assoc (header_bytes node []) (keys_bytes node.keys [])
          (numbers_bytes (payload node) rest)
      ∙ ap (λ t. header_bytes node [] ++ t)
          (keys-append node.keys (numbers_bytes (payload node) rest))
      ∙ header-append node (keys_bytes node.keys (numbers_bytes (payload node) rest))

  fill_page-length : length (fill_page written) ≡ page_size
  fill_page-length = omega (
    arith,
    s.fits_page,
    written-length,
    length-append {0} written (replicate (page_size - length written) 0),
    length-replicate {0} (page_size - length written) (zero),
  )

  serialize_node-written :
      {size : ℕ}
      → validate_node_shape node ≡ ok tt
      → validate_node_keys node.keys kind ≡ ok tt
      → serialized_node_size node kind ≡ ok size
      → size ≤ page_size
      → serialize_node node kind ≡ ok (fill_page written)
  unfolding serialize_node written
  serialize_node-written {size} shaped checked sized l =
      let size_fits : not (ltb page_size size) ≡ true = ground (arith, l) in
      ok-then
        (ap (λ m. m >> validate_node_keys node.keys kind >> serialized_node_size node kind) shaped
          ∙ ap (λ m. m >> serialized_node_size node kind) checked
          ∙ sized)
        _
        (ok-then
          (ok-then
            (ok-then
              (ap (λ b. guard b length_error >> write_header node) size_fits
                ∙ write_header-bytes node)
              (write_keys node.keys)
              (write_keys-bytes node.keys kind (header_bytes node []) s.keys_sized
                (omega (arith, s.fits_page, header-length node))))
            (write_numbers (payload node))
            (write_numbers-bytes (payload node) (header_bytes node [] ++ keys_bytes node.keys []) (
              omega (
                arith,
                s.fits_page,
                header-length node,
                length-append {0} (header_bytes node []) (keys_bytes node.keys []),
                keys-length node.keys kind s.keys_sized,
              ))))
          (λ page. ok (fill_page page)) refl)

  deserialize_node-written :
      validate_node_shape node ≡ ok tt
      → IsMachine node
      → deserialize_node (fill_page written) kind ≡ ok node
  unfolding deserialize_node
  deserialize_node-written shaped w =
      let rest : Bytes = replicate (page_size - length written) 0 in
      let page = fill_page written in
      let full : (length page == page_size) ≡ true =
        (==_iff (length page) page_size).1 fill_page-length in
      let fewer : length node.keys ≤ length (payload node) =
        keys-fewer node.is_leaf (length node.keys) (length (payload node)) (fields node shaped).0 in
      let counts_fit : not
            (ltb (length page) (length node.keys) || ltb (length page) (length (payload node)))
          ≡ true =
        ground (arith, fill_page-length, fewer, s.fits_page) in
      ok-then
        (ap (λ b. guard b invalid_argument >> read_header page) full
          ∙ ap read_header (fill_page-bytes rest)
          ∙ read_header-bytes node (keys_bytes node.keys (numbers_bytes (payload node) rest)) w
              (omega (arith, fewer, s.fits_page)) (omega (arith, s.fits_page)))
        _
        (ap
            (λ b.
              guard b runtime_error
              >> read_body (header_of node) kind
                  (keys_bytes node.keys (numbers_bytes (payload node) rest)))
            counts_fit
          ∙ read_body-bytes node shaped kind rest s.keys_sized w)

-- A node in the shape of a leaf or of an inner node, with keys of the index's kind and numbers of the
-- machine, whose size is at most that of a page: it is written, as one page, and the node that is
-- read back from that page is the same.
pub deserialize-serialize :
    (node : IndexNode) (kind : IndexKeyKind) (size : ℕ)
    → IsMachine node
    → validate_node_shape node ≡ ok tt
    → validate_node_keys node.keys kind ≡ ok tt
    → serialized_node_size node kind ≡ ok size
    → size ≤ page_size
    → (page : Bytes) × (serialize_node node kind ≡ ok page)
      × (length page ≡ page_size)
      × (deserialize_node page kind ≡ ok node)
deserialize-serialize node kind size w shaped checked sized l =
    let s = serialized_node_size-Sized node kind sized l in
    (
      fill_page (written node kind s),
      serialize_node-written node kind s shaped checked sized l,
      fill_page-length node kind s,
      deserialize_node-written node kind s shaped w,
    )
