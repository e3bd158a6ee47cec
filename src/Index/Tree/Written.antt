-- ===== src/Index/Tree/Written.antt =====
-- A node that was written is read back, and the others are as they were.
use dbms_project_sp.Base.{
  ℕ, ◌≤◌, ◌≡◌, refl, sym, ap, ◌∙◌, false, ◌==◌, Bytes, Result, ok, ◌>>=◌, ◌>>◌, guard, ltb, not,
  length, >>-ok, >>=-ok, guard-ok, arith,
}
use dbms_project_sp.Index.Scalar.{length_error, page_size}
use dbms_project_sp.Index.Key.{IndexKeyKind}
use dbms_project_sp.Index.Disk.{read_page}
use dbms_project_sp.Index.Disk.Pages.{replaced, read_page-other, read_page-written}
use dbms_project_sp.Index.Node.{
  IndexNode, payload, write_header, write_keys, write_numbers, validate_node_shape,
  validate_node_keys, serialized_node_size, serialize_node, deserialize_node,
}
use dbms_project_sp.Index.Node.Reads.{IsMachine}
use dbms_project_sp.Index.Node.RoundTrip.{deserialize-serialize}
use dbms_project_sp.Index.Tree.{BStarPlusIndex, node_at, written}

serialized :
    (node : IndexNode) (kind : IndexKeyKind) {page : Bytes}
    → serialize_node node kind ≡ ok page
    → (validate_node_shape node ≡ ok tt)
      × (validate_node_keys node.keys kind ≡ ok tt)
      × (size : ℕ) × (serialized_node_size node kind ≡ ok size)
      × (size ≤ page_size)
unfolding serialize_node
serialized node kind h =
    let (size, sized, rest) =
      >>=-ok
        (validate_node_shape node
          >> validate_node_keys node.keys kind
          >> serialized_node_size node kind)
        _ h in
    let (checked, is_size) =
      >>-ok (validate_node_shape node >> validate_node_keys node.keys kind)
        (serialized_node_size node kind) sized in
    let (shape, keys) =
      >>-ok (validate_node_shape node) (validate_node_keys node.keys kind) checked in
    let fits = guard (not (ltb page_size size)) length_error in
    let with_keys = fits >> write_header node >>= write_keys node.keys in
    let (numbered, numbers_end, filled) =
      >>=-ok (with_keys >>= write_numbers (payload node)) _ rest in
    let (keyed, keys_end, more) = >>=-ok with_keys (write_numbers (payload node)) numbers_end in
    let (header, header_end, others) =
      >>=-ok (fits >> write_header node) (write_keys node.keys) keys_end in
    let small =
      guard-ok (not (ltb page_size size)) length_error
        (>>-ok fits (write_header node) header_end).0 in
    (shape, keys, size, is_size, ground (arith, small))

ok-injective : {E A : Type 0} {a b : A} → ◌≡◌ {A = Result E A} (ok a) (ok b) → a ≡ b
ok-injective h = ground arith

-- The page of a node that fits it has the size of a page, and the node is read from it.
pub read_back :
    (node : IndexNode) (kind : IndexKeyKind) {page : Bytes}
    → IsMachine node
    → serialize_node node kind ≡ ok page
    → (length page ≡ page_size) × (deserialize_node page kind ≡ ok node)
read_back node kind w h =
    let (shape, keys, size, sized, fits) = serialized node kind h in
    let (page, is_page, full, reads) =
      deserialize-serialize node kind size w shape keys sized fits in
    let same = ok-injective (sym is_page ∙ h) in
    (ap length (sym same) ∙ full, ap (λ p. deserialize_node p kind) (sym same) ∙ reads)

module _ (t : BStarPlusIndex) (node : IndexNode) (page old : Bytes) (w : IsMachine node)
    (fits : serialize_node node t.metadata.key_kind ≡ ok page)
    (there : read_page node.page_id t.disk_manager ≡ ok old) where
  abbrev pub after : BStarPlusIndex
  after = record t { disk_manager = replaced node.page_id page t.disk_manager }

  pub written-after : written node t ≡ ok (after.disk_manager, tt)
  unfolding written
  written-after =
      let full = (read_back node t.metadata.key_kind w fits).0 in
      rw (fits, (read_page-written node.page_id page t.disk_manager there full).0) refl

  pub node_at-after : node_at node.page_id after ≡ ok node
  unfolding node_at
  node_at-after =
      let (full, reads) = read_back node t.metadata.key_kind w fits in
      rw ((read_page-written node.page_id page t.disk_manager there full).1) reads

  pub node_at-other : (id : ℕ) → (node.page_id == id) ≡ false → node_at id after ≡ node_at id t
  unfolding node_at
  node_at-other id h = rw (read_page-other node.page_id id page t.disk_manager h) refl
