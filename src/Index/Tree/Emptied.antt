-- ===== src/Index/Tree/Emptied.antt =====
-- An erasure of the only key that the metadata count.
use dbms_project_sp.Base.{
  ℕ, ◌-◌, ◌≡◌, refl, sym, subst, true, ◌==◌, [], ◌∷◌, some, length, Bytes, ok, arith,
}
use dbms_project_sp.Index.Key.{IndexKey, IndexKeyKind}
use dbms_project_sp.Index.Order.{OfKind}
use dbms_project_sp.Index.Entries.{Entries, find_entry}
use dbms_project_sp.Index.Entries.Change.{erase_entry, length-erase_entry}
use dbms_project_sp.Index.Disk.{BStarPlusIndexMetadata, invalid_page_id, read_page, write_metadata}
use dbms_project_sp.Index.Disk.Pages.{replaced}
use dbms_project_sp.Index.Disk.Reopen.{InFields}
use dbms_project_sp.Index.Node.{
  IndexNode, serialize_node, validate_node_shape, validate_node_keys, serialized_node_size,
  keys_size,
}
use dbms_project_sp.Index.Node.Reads.{IsMachine}
use dbms_project_sp.Index.Node.RoundTrip.{deserialize-serialize}
use dbms_project_sp.Index.Tree.{BStarPlusIndex, node_at, written}
use dbms_project_sp.Index.Tree.Shape.{IsTree, IsEmpty}
use dbms_project_sp.Index.Tree.Searches.{valid_kind, place, searches_leaf}
use dbms_project_sp.Index.Tree.Written.{read_back, written-after}
use dbms_project_sp.Index.Tree.Reopened.{replaced-IsFile, write_metadata-IsFile, open_index-content}
use dbms_project_sp.Index.Tree.Rewritten.{OnDisk, Reopens, page_there}
use dbms_project_sp.Index.Tree.Update.{erase, erase_found}

-- A leaf without entries.
abbrev bare : IndexNode → IndexNode
bare leaf = record leaf { keys = []; records = [] }

bare-IsMachine : (leaf : IndexNode) → leaf.is_leaf ≡ true → IsMachine leaf → IsMachine (bare leaf)
bare-IsMachine leaf e w = record { own = w.own; next = w.next; in_keys = tt; in_payload = rw e tt }

bare_shape :
    (leaf : IndexNode)
    → leaf.is_leaf ≡ true
    → leaf.children ≡ []
    → validate_node_shape (bare leaf) ≡ ok tt
unfolding validate_node_shape
bare_shape leaf e none = rw (e, none) refl

bare_size :
    (leaf : IndexNode) (kind : IndexKeyKind)
    → leaf.is_leaf ≡ true
    → serialized_node_size (bare leaf) kind ≡ ok 32
unfolding serialized_node_size keys_size
bare_size leaf kind e = rw e refl

bare_keys : (kind : IndexKeyKind) → validate_node_keys [] kind ≡ ok tt
unfolding validate_node_keys
bare_keys kind = refl

nothing_left : (es : Entries) → length es ≡ 0 → es ≡ []
nothing_left [] h = refl
nothing_left (e ∷ es) h = absurd (omega (arith, h))

module _ (t : BStarPlusIndex) (es : Entries) (tree : IsTree t es) (key : IndexKey)
    (p : OfKind t.metadata.key_kind key) (record_id : ℕ)
    (there : find_entry key es ≡ some record_id) (last : (t.metadata.size - 1 == 0) ≡ true) where
  abbrev bare_leaf : IndexNode
  bare_leaf = bare (place t es tree key p).leaf

  bare_leaf-IsMachine : IsMachine bare_leaf
  bare_leaf-IsMachine =
      let l = (place t es tree key p).is_leaf in
      bare-IsMachine (place t es tree key p).leaf l.is_leaf l.machine

  pub bare_page : (page : Bytes) × (serialize_node bare_leaf t.metadata.key_kind ≡ ok page)
  bare_page =
      let leaf = (place t es tree key p).leaf in
      let l = (place t es tree key p).is_leaf in
      let kind = t.metadata.key_kind in
      let (page, fits, full, reads) =
        deserialize-serialize bare_leaf kind 32 bare_leaf-IsMachine
          (bare_shape leaf l.is_leaf l.no_children) (bare_keys kind) (bare_size leaf kind l.is_leaf)
          (omega arith) in
      (page, fits)

  old_page : (old : Bytes) × (read_page bare_leaf.page_id t.disk_manager ≡ ok old)
  old_page =
      let l = (place t es tree key p).is_leaf in
      page_there t bare_leaf.page_id
        (subst (λ id. node_at id t ≡ ok (place t es tree key p).leaf) (sym l.own) l.read)

  abbrev no_entries : BStarPlusIndexMetadata
  no_entries = record t.metadata {
    size = t.metadata.size - 1;
    root_page_id = invalid_page_id;
    first_leaf_page_id = invalid_page_id;
    height = 0;
  }

  abbrev pub emptied : BStarPlusIndex
  emptied = record {
    disk_manager =
        write_metadata no_entries (replaced bare_leaf.page_id bare_page.0 t.disk_manager);
    metadata = no_entries;
  }

  written-bare :
      (other : ℕ)
      → written bare_leaf (record t { metadata = record t.metadata { size = other } })
        ≡ ok (replaced bare_leaf.page_id bare_page.0 t.disk_manager, tt)
  unfolding written
  written-bare other =
      written-after t bare_leaf bare_page.0 old_page.0 bare_leaf-IsMachine bare_page.1 old_page.1

  pub erase-emptied : erase key t ≡ (emptied, ok true)
  unfolding erase erase_found
  erase-emptied =
      rw
        (
          valid_kind t es tree key p,
          tree.rooted,
          searches_leaf t es tree key p,
          there,
          last,
          written-bare (t.metadata.size - 1),
        )
        refl

  pub emptied-IsEmpty : IsEmpty emptied
  emptied-IsEmpty = record { no_root = refl; counted = ground (arith, last) }

  pub no_entries_left : erase_entry key es ≡ []
  no_entries_left =
      nothing_left (erase_entry key es)
        (ground (arith, last, tree.counted, length-erase_entry key es there))

  pub emptied-OnDisk : OnDisk t → OnDisk emptied × Reopens emptied
  emptied-OnDisk disk =
      let full = (read_back bare_leaf t.metadata.key_kind bare_leaf-IsMachine bare_page.1).0 in
      let in_fields : InFields no_entries = record {
        root = omega arith;
        first = omega arith;
        height = omega arith;
        size = omega (arith, disk.in_fields.size);
      } in
      let pages = replaced-IsFile bare_leaf.page_id bare_page.0 t.disk_manager full disk.whole in
      let d = replaced bare_leaf.page_id bare_page.0 t.disk_manager in
      (
        record { whole = write_metadata-IsFile no_entries d pages; in_fields = in_fields },
        open_index-content no_entries d key p in_fields pages,
      )
