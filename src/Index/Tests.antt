-- ===== src/Index/Tests.antt =====
-- A leaf of two string keys, written and read back.
use dbms_project_sp.Base.{◌≡◌, refl, true, [], ◌∷◌, Bytes, codes, length, arith, ok}
use dbms_project_sp.Index.Scalar.{page_size}
use dbms_project_sp.Index.Key.{
  IndexKey, IndexKeyKind, validate_key_kind, key_matches_kind, serialized_key_size,
  validate_string_key, has_zero,
}
use dbms_project_sp.Index.Node.{
  IndexNode, validate_node_shape, validate_node_keys, keys_size, serialized_node_size,
  serialize_node, deserialize_node,
}
use dbms_project_sp.Index.Node.Reads.{IsMachine}
use dbms_project_sp.Index.Node.RoundTrip.{deserialize-serialize}

abbrev names : IndexNode
names = record {
  is_leaf = true;
  page_id = 3;
  next_leaf_page_id = 0xFFFFFFFFFFFFFFFF;
  keys = IndexKey.string (codes "ann") ∷ IndexKey.string (codes "bob") ∷ [];
  children = [];
  records = 7 ∷ 9 ∷ [];
}

names-IsMachine : IsMachine names
names-IsMachine = record {
  own = omega arith;
  next = omega arith;
  in_keys = (tt, (tt, tt));
  in_payload = omega arith;
}

names_shaped : validate_node_shape names ≡ ok tt
unfolding validate_node_shape
names_shaped = refl

names_checked : validate_node_keys names.keys IndexKeyKind.string ≡ ok tt
unfolding validate_node_keys validate_key_kind key_matches_kind
names_checked = refl

names_sized : serialized_node_size names IndexKeyKind.string ≡ ok 564
unfolding serialized_node_size keys_size validate_key_kind key_matches_kind serialized_key_size
    validate_string_key has_zero
names_sized = refl

deserialize-serialize_example :
    (page : Bytes) × (serialize_node names IndexKeyKind.string ≡ ok page)
    × (length page ≡ page_size)
    × (deserialize_node page IndexKeyKind.string ≡ ok names)
deserialize-serialize_example =
    deserialize-serialize names IndexKeyKind.string 564 names-IsMachine names_shaped names_checked
      names_sized (omega arith)
