-- ===== src/Index/Tree/First.antt =====
-- The first key that is put into an index.
use dbms_project_sp.Base.{
  ℕ, suc, ◌-◌, ◌^◌, ◌<◌, ◌≡◌, refl, ◌∙◌, true, false, ◌==◌, leb, List, [], ◌∷◌, ◌++◌, some, length,
  length-append, length-set, length-replicate, get_elem?, Bytes, ok, err, arith, All-append,
}
use dbms_project_sp.Index.Scalar.{IndexError, page_size}
use dbms_project_sp.Index.Key.{IndexKey, KeyInRange, validate_key_kind}
use dbms_project_sp.Index.Order.{OfKind}
use dbms_project_sp.Index.Disk.{
  BStarPlusIndexMetadata, DiskPageManager, invalid_page_id, page_count, zeros, allocate_page,
  page_offset, read_page, validate_existing_page_id, write_metadata,
}
use dbms_project_sp.Index.Disk.Pages.{replaced}
use dbms_project_sp.Index.Disk.Reopen.{InFields, IsFile, IsFull}
use dbms_project_sp.Index.Node.{IndexNode, serialize_node}
use dbms_project_sp.Index.Node.Reads.{IsMachine}
use dbms_project_sp.Index.Tree.{BStarPlusIndex, node_at, written}
use dbms_project_sp.Index.Tree.Shape.{IsTree, IsEmpty, IsLeaf}
use dbms_project_sp.Index.Tree.Written.{read_back, written-after, node_at-after}
use dbms_project_sp.Index.Tree.Reopened.{replaced-IsFile, write_metadata-IsFile, open_index-content}
use dbms_project_sp.Index.Tree.Rewritten.{OnDisk, Reopens}
use dbms_project_sp.Index.Tree.Update.{insert, insert_first}

get_elem?-last {ℓ} :
    {A : Type ℓ} (xs : List A) (v : A) → get_elem? (xs ++ v ∷ []) (length xs) ≡ some v
get_elem?-last [] v = refl
get_elem?-last (x ∷ xs) v = get_elem?-last xs v

-- Every page id that the file has room for.
abbrev pub HasRoom : DiskPageManager → Type 0
HasRoom d = page_count d < 2 ^ 51

module _ (d : DiskPageManager) (room : HasRoom d) where
  abbrev pub one_more_page : DiskPageManager
  one_more_page = record d { pages = d.pages ++ zeros page_size ∷ [] }

  pub allocate_page-room : allocate_page d ≡ ok (one_more_page, page_count d)
  unfolding allocate_page page_offset
  allocate_page-room =
      let small : leb (page_count d) (2 ^ 51 - 1) ≡ true = ground (arith, room) in rw small refl

  pub new_count : page_count one_more_page ≡ suc (page_count d)
  new_count = omega (arith, length-append {0} d.pages (zeros page_size ∷ []))

  pub read_page-new : read_page (page_count d) one_more_page ≡ ok (zeros page_size)
  unfolding read_page validate_existing_page_id page_offset
  read_page-new =
      let small : leb (page_count d) (2 ^ 51 - 1) ≡ true = ground (arith, room) in
      let valid : (page_count d == invalid_page_id) ≡ false = ground (arith, room) in
      let within : leb (page_count one_more_page) (page_count d) ≡ false =
        ground (arith, new_count) in
      rw (valid, within, small, get_elem?-last {0} d.pages (zeros page_size)) refl

  pub one_more_page-IsFile : IsFile d → IsFile one_more_page
  one_more_page-IsFile f = record {
    header = f.header;
    pages =
        All-append IsFull d.pages (zeros page_size ∷ []) f.pages
          (length-replicate {A = ℕ} page_size 0, tt);
  }

-- The leaf of the first key.
abbrev pub lone_leaf : BStarPlusIndex → IndexKey → ℕ → IndexNode
lone_leaf t key record_id = record {
  is_leaf = true;
  page_id = page_count t.disk_manager;
  next_leaf_page_id = invalid_page_id;
  keys = key ∷ [];
  children = [];
  records = record_id ∷ [];
}

module _ (t : BStarPlusIndex) (empty : IsEmpty t) (room : HasRoom t.disk_manager) (key : IndexKey)
    (p : OfKind t.metadata.key_kind key) (in_range : KeyInRange key) (record_id : ℕ)
    (small : record_id < 2 ^ 64) where
  abbrev pub first_leaf : IndexNode
  first_leaf = lone_leaf t key record_id

  first_leaf-IsMachine : IsMachine first_leaf
  first_leaf-IsMachine = record {
    own = omega (arith, room);
    next = omega arith;
    in_keys = (in_range, tt);
    in_payload = (small, tt);
  }

  -- The index with the new page.
  abbrev pub with_page : BStarPlusIndex
  with_page = record t { disk_manager = one_more_page t.disk_manager room }

  empty_kind : validate_key_kind key t.metadata.key_kind ≡ ok tt
  unfolding validate_key_kind
  empty_kind = rw p refl

  pub insert-unwritten :
      (e : IndexError)
      → serialize_node first_leaf t.metadata.key_kind ≡ err e
      → insert key record_id t ≡ (with_page, err e)
  unfolding insert insert_first written
  insert-unwritten e full =
      rw (empty_kind, empty.no_root, allocate_page-room t.disk_manager room, full) refl

  module _ (page : Bytes) (fits : serialize_node first_leaf t.metadata.key_kind ≡ ok page) where
    abbrev one_key : BStarPlusIndexMetadata
    one_key = record t.metadata {
      root_page_id = page_count t.disk_manager;
      first_leaf_page_id = page_count t.disk_manager;
      height = 1;
      size = 1;
    }

    abbrev pub planted : BStarPlusIndex
    planted = record {
      disk_manager =
          write_metadata one_key
            (replaced (page_count t.disk_manager) page (one_more_page t.disk_manager room));
      metadata = one_key;
    }

    pub insert-planted : insert key record_id t ≡ (planted, ok tt)
    unfolding insert insert_first
    insert-planted =
        rw
          (
            empty_kind,
            empty.no_root,
            allocate_page-room t.disk_manager room,
            written-after with_page first_leaf page (zeros page_size) first_leaf-IsMachine fits
                (read_page-new t.disk_manager room),
          )
          refl

    planted_read : node_at (page_count t.disk_manager) planted ≡ ok first_leaf
    unfolding node_at read_page write_metadata
    planted_read =
        node_at-after with_page first_leaf page (zeros page_size) first_leaf-IsMachine fits
          (read_page-new t.disk_manager room)

    planted_count : page_count planted.disk_manager ≡ suc (page_count t.disk_manager)
    unfolding write_metadata
    planted_count =
        length-set {0} (t.disk_manager.pages ++ zeros page_size ∷ []) (page_count t.disk_manager)
          page
        ∙ new_count t.disk_manager room

    planted-IsLeaf :
        IsLeaf planted
          (page_count t.disk_manager)
          invalid_page_id
          ((key, record_id) ∷ [])
          first_leaf
    planted-IsLeaf = record {
      read = planted_read;
      is_leaf = refl;
      own = refl;
      following = refl;
      keys = refl;
      records = refl;
      no_children = refl;
      machine = first_leaf-IsMachine;
    }

    pub planted-IsTree : IsTree planted ((key, record_id) ∷ [])
    planted-IsTree = record {
      above = 0;
      leaves = 1;
      first = page_count t.disk_manager;
      rooted = ground (arith, room);
      pages = page_count t.disk_manager ∷ [];
      tree = (refl, refl, refl, first_leaf, planted-IsLeaf);
      apart = (refl, tt);
      is_first = refl;
      is_height = refl;
      path_fits = omega (arith, planted_count);
      leaves_fit = omega (arith, planted_count);
      counted = refl;
      sorted = (tt, tt);
      of_kind = (p, tt);
    }

    pub planted-OnDisk : OnDisk t → OnDisk planted × Reopens planted
    planted-OnDisk disk =
        let full = (read_back first_leaf t.metadata.key_kind first_leaf-IsMachine fits).0 in
        let in_fields : InFields one_key = record {
          root = omega (arith, room);
          first = omega (arith, room);
          height = omega arith;
          size = omega arith;
        } in
        let file = one_more_page-IsFile t.disk_manager room disk.whole in
        let d = one_more_page t.disk_manager room in
        let pages = replaced-IsFile (page_count t.disk_manager) page d full file in
        (
          record {
            whole =
                write_metadata-IsFile one_key (replaced (page_count t.disk_manager) page d) pages;
            in_fields = in_fields;
          },
          open_index-content one_key (replaced (page_count t.disk_manager) page d) key p in_fields
              pages,
        )
