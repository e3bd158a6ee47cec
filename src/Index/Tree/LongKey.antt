-- ===== src/Index/Tree/LongKey.antt =====
-- A test: what `insert` leaves of the other keys where it throws for a key that is too long.
use dbms_project_sp.Base.{
  ℕ, [], ◌∷◌, none, some, Option, replicate, Result, ok, err, ◌>>=◌, ◌≡◌, refl, bytes_lt, bytes_eq,
}
use dbms_project_sp.Index.Scalar.{
  IndexError, length_error, bytes_of, number_of, write_scalar, read_bytes, read_scalar,
}
use dbms_project_sp.Index.Key.{
  IndexKey, IndexKeyKind, key_matches_kind, validate_key_kind, key_less, keys_equal, has_zero,
  validate_string_key, serialized_key_size, write_key, until_zero, read_key,
}
use dbms_project_sp.Index.Disk.{
  metadata_bytes, write_metadata, read_fields, read_metadata, pages_of, open_file, new_file,
  open_manager, validate_existing_page_id, page_offset, allocate_page, read_page, write_page,
}
use dbms_project_sp.Index.Node.{
  validate_node_shape, validate_node_keys, keys_size, serialized_node_size, write_header,
  write_keys, write_numbers, serialize_node, read_header, read_keys, read_numbers, read_body,
  deserialize_node,
}
use dbms_project_sp.Index.Tree.{
  open_index, node_at, written, lower_bound, find_leaf_from, find_leaf, stands_at, find_in_leaf,
  find_from, find,
}
use dbms_project_sp.Index.Tree.Nodes.{node_fits_page}
use dbms_project_sp.Index.Tree.Split.{insert_into_parent}
use dbms_project_sp.Index.Tree.Grow.{split_leaf}
use dbms_project_sp.Index.Tree.Update.{insert_first, insert_beside_others, insert}

abbrev letter : ℕ → IndexKey
letter c = IndexKey.string (c ∷ [])

abbrev too_long : IndexKey
too_long = IndexKey.string (replicate 300 122)

-- What is found of the second of two keys before and behind the insertion of a third, and how that
-- ends.
abbrev around_insert : Result IndexError (Option ℕ × Option ℕ × Result IndexError (Unit {0}))
around_insert = open_index none IndexKeyKind.string >>= λ t.
    let t = (insert (letter 97) 1 t).0 in
    let t = (insert (letter 98) 2 t).0 in
    let (u, end) = insert too_long 3 t in
    find (letter 98) t >>= λ before. find (letter 98) u >>= λ behind. ok (before, behind, end)

around_insert_run : around_insert ≡ ok (some 2, none, err length_error)
unfolding bytes_of number_of write_scalar read_bytes read_scalar key_matches_kind validate_key_kind
    key_less keys_equal has_zero validate_string_key serialized_key_size write_key until_zero
    read_key metadata_bytes write_metadata read_fields read_metadata pages_of open_file new_file
    open_manager validate_existing_page_id page_offset allocate_page read_page write_page
    validate_node_shape validate_node_keys keys_size serialized_node_size write_header write_keys
    write_numbers serialize_node read_header read_keys read_numbers read_body deserialize_node
    open_index node_at written lower_bound find_leaf_from find_leaf stands_at find_in_leaf find_from
    find node_fits_page insert_into_parent split_leaf insert_first insert_beside_others insert
    bytes_lt bytes_eq
around_insert_run = refl
