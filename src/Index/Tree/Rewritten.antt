-- ===== src/Index/Tree/Rewritten.antt =====
-- The tree in which the leaf that a search ends at is written anew, with the number of entries.
use dbms_project_sp.Base.{
  ℕ, ◌^◌, ◌<◌, ◌≡◌, refl, sym, subst, ◌∙◌, true, false, ◌==◌, ◌++◌, map, [], some, Bytes, length,
  length-set, ok, >>=-ok, arith,
}
use dbms_project_sp.Index.Key.{IndexKey}
use dbms_project_sp.Index.Order.{OfKind}
use dbms_project_sp.Index.Entries.{Entries, Sorted, AllOfKind}
use dbms_project_sp.Index.Disk.{
  BStarPlusIndexMetadata, invalid_page_id, page_count, read_page, write_metadata,
}
use dbms_project_sp.Index.Disk.Pages.{replaced}
use dbms_project_sp.Index.Disk.Reopen.{InFields, IsFile, content}
use dbms_project_sp.Index.Node.{IndexNode, serialize_node}
use dbms_project_sp.Index.Node.Reads.{IsMachine}
use dbms_project_sp.Index.Tree.{BStarPlusIndex, node_at, open_index, written}
use dbms_project_sp.Index.Tree.Shape.{IsTree, IsLeaf, Subtree}
use dbms_project_sp.Index.Tree.Frame.{Apart}
use dbms_project_sp.Index.Tree.Chosen.{Grown}
use dbms_project_sp.Index.Tree.Searches.{place}
use dbms_project_sp.Index.Tree.Written.{
  read_back, after, written-after, node_at-after, node_at-other,
}
use dbms_project_sp.Index.Tree.Reopened.{replaced-IsFile, write_metadata-IsFile, open_index-content}

-- What a file needs besides its tree: whole pages, and metadata of the machine.
pub record OnDisk (t : BStarPlusIndex) : Type 0 where
  pub whole : IsFile t.disk_manager
  pub in_fields : InFields t.metadata

-- The constructor makes the index again of its file.
abbrev pub Reopens : BStarPlusIndex → Type 0
Reopens u = open_index (some (content u.disk_manager)) u.metadata.key_kind ≡ ok u

-- The page of a node that can be read.
pub page_there :
    (t : BStarPlusIndex) (id : ℕ) {node : IndexNode}
    → node_at id t ≡ ok node
    → (old : Bytes) × (read_page id t.disk_manager ≡ ok old)
unfolding node_at
page_there t id h = let (old, read, rest) = >>=-ok (read_page id t.disk_manager) _ h in (old, read)

module _ (t : BStarPlusIndex) (es : Entries) (tree : IsTree t es) (key : IndexKey)
    (p : OfKind t.metadata.key_kind key) where
  -- The leaf with other entries, none of which has a key that is new here but the one looked for.
  pub record Change (changed : IndexNode) (new : Entries) : Type 0 where
    pub is_leaf : changed.is_leaf ≡ true
    pub own : changed.page_id ≡ (place t es tree key p).page
    pub following : changed.next_leaf_page_id ≡ (place t es tree key p).following
    pub keys : changed.keys ≡ map (λ e. e.0) new
    pub records : changed.records ≡ map (λ e. e.1) new
    pub no_children : changed.children ≡ []
    pub machine : IsMachine changed
    pub grown : Grown key (place t es tree key p).items new

  module _ (changed : IndexNode) (new : Entries) (c : Change changed new) (page : Bytes)
      (fits : serialize_node changed t.metadata.key_kind ≡ ok page) (size : ℕ) where
    old_page : (old : Bytes) × (read_page changed.page_id t.disk_manager ≡ ok old)
    old_page =
        let r = place t es tree key p in
        page_there t changed.page_id
          (subst (λ id. node_at id t ≡ ok r.leaf) (sym c.own) r.is_leaf.read)

    abbrev pub sized : BStarPlusIndexMetadata
    sized = record t.metadata { size = size }

    abbrev pub rewritten : BStarPlusIndex
    rewritten = record {
      disk_manager = write_metadata sized (replaced changed.page_id page t.disk_manager);
      metadata = sized;
    }

    -- Which metadata are in memory does not matter, but for the kind.
    pub written-changed :
        (other : ℕ)
        → written changed (record t { metadata = record t.metadata { size = other } })
          ≡ ok (replaced changed.page_id page t.disk_manager, tt)
    unfolding written
    written-changed other = written-after t changed page old_page.0 c.machine fits old_page.1

    node_at-rewritten :
        (id : ℕ)
        → node_at id rewritten
          ≡ node_at id (after t changed page old_page.0 c.machine fits old_page.1)
    unfolding node_at read_page write_metadata
    node_at-rewritten id = refl

    rewritten-Apart : Apart (place t es tree key p).page t rewritten
    rewritten-Apart = record {
      kind = refl;
      elsewhere = λ id h.
          node_at-rewritten id
          ∙ node_at-other t changed page old_page.0 c.machine fits old_page.1 id
              (subst (λ own. (own == id) ≡ false) (sym c.own) h);
    }

    rewritten-IsLeaf :
        IsLeaf rewritten (place t es tree key p).page (place t es tree key p).following new changed
    rewritten-IsLeaf = record {
      read =
          subst (λ id. node_at id rewritten ≡ ok changed) c.own
            (node_at-rewritten changed.page_id
              ∙ node_at-after t changed page old_page.0 c.machine fits old_page.1);
      is_leaf = c.is_leaf;
      own = c.own;
      following = c.following;
      keys = c.keys;
      records = c.records;
      no_children = c.no_children;
      machine = c.machine;
    }

    same_count : page_count rewritten.disk_manager ≡ page_count t.disk_manager
    unfolding write_metadata
    same_count = length-set {0} t.disk_manager.pages changed.page_id page

    pub rewritten-IsTree :
        (all : Entries)
        → all ≡ (place t es tree key p).front ++ (new ++ (place t es tree key p).behind)
        → size ≡ length all
        → Sorted all
        → AllOfKind t.metadata.key_kind all
        → IsTree rewritten all
    rewritten-IsTree all is_all counted sorted of_kind =
        let r = place t es tree key p in
        record {
          above = tree.above;
          leaves = tree.leaves;
          first = tree.first;
          rooted = tree.rooted;
          pages = tree.pages;
          tree =
              subst
                (Subtree rewritten tree.above t.metadata.root_page_id tree.first invalid_page_id
                  tree.leaves tree.pages)
                (sym is_all)
                (r.plug rewritten new changed rewritten-Apart c.grown rewritten-IsLeaf);
          apart = tree.apart;
          is_first = tree.is_first;
          is_height = tree.is_height;
          path_fits = omega (arith, tree.path_fits, same_count);
          leaves_fit = omega (arith, tree.leaves_fit, same_count);
          counted = counted;
          sorted = sorted;
          of_kind = of_kind;
        }

    pub rewritten-OnDisk : OnDisk t → size < 2 ^ 64 → OnDisk rewritten × Reopens rewritten
    rewritten-OnDisk disk small =
        let full = (read_back changed t.metadata.key_kind c.machine fits).0 in
        let f = disk.in_fields in
        let in_fields : InFields sized = record {
          root = f.root;
          first = f.first;
          height = f.height;
          size = small;
        } in
        let pages = replaced-IsFile changed.page_id page t.disk_manager full disk.whole in
        let d = replaced changed.page_id page t.disk_manager in
        (
          record { whole = write_metadata-IsFile sized d pages; in_fields = in_fields },
          open_index-content sized d key p in_fields pages,
        )
