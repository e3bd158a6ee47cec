-- ===== src/Index/Tree/Searches.antt =====
-- What the searches answer on a tree, and what insertion and erasure do that change nothing.
use dbms_project_sp.Base.{
  ℕ, suc, ◌≡◌, refl, sym, ap, subst, ◌∙◌, false, [], ◌++◌, none, some, ok, err, arith,
}
use dbms_project_sp.Index.Scalar.{invalid_argument}
use dbms_project_sp.Index.Key.{IndexKey, validate_key_kind}
use dbms_project_sp.Index.Order.{OfKind}
use dbms_project_sp.Index.Entries.{
  Entries, find_entry, Sorted, Sorted-split, AllOfKind, All-split, find_entry-AllBelow,
  find_entry-AllAbove,
}
use dbms_project_sp.Index.Disk.{invalid_page_id, page_count}
use dbms_project_sp.Index.Node.{IndexNode}
use dbms_project_sp.Index.Tree.{BStarPlusIndex, find, find_in_leaf, find_leaf}
use dbms_project_sp.Index.Tree.Shape.{IsTree, IsLeaf}
use dbms_project_sp.Index.Tree.Found.{Located, locate}
use dbms_project_sp.Index.Tree.Leaf.{is_some, Searched, searched}
use dbms_project_sp.Index.Tree.Update.{search_leaf, insert, insert_beside_others, erase}

in_leaf :
    (t : BStarPlusIndex) (id next : ℕ) (items : Entries) (leaf : IndexNode) (key : IndexKey)
    → IsLeaf t id next items leaf
    → Searched key items
    → find_in_leaf leaf key ≡ ok (find_entry key items)
unfolding find_in_leaf
in_leaf t id next items leaf key l s = rw (l.keys, l.records, s.bound, s.stands) (ap ok s.gives)

module _ (t : BStarPlusIndex) (es : Entries) (tree : IsTree t es) where
  pub valid_kind :
      (key : IndexKey)
      → OfKind t.metadata.key_kind key
      → validate_key_kind key t.metadata.key_kind ≡ ok tt
  unfolding validate_key_kind
  valid_kind key p = rw p refl

  abbrev pub Place : IndexKey → Type 0
  Place key =
      (p : OfKind t.metadata.key_kind key)
      → Located t key p tree.above (suc (page_count t.disk_manager)) t.metadata.root_page_id
          tree.first invalid_page_id tree.leaves tree.pages es

  pub place : (key : IndexKey) → Place key
  place key p =
      locate t key p tree.above (suc (page_count t.disk_manager)) t.metadata.root_page_id tree.first
        invalid_page_id tree.leaves tree.pages es (omega (arith, tree.path_fits)) tree.of_kind
        tree.apart tree.tree

  -- The leaf that is found holds sorted entries of the index's kind, and what the leaf holds of the
  -- key is all that the tree does.
  module _ (key : IndexKey) (p : OfKind t.metadata.key_kind key) where
    abbrev pub here :
        Located t key p tree.above
          (suc (page_count t.disk_manager))
          t.metadata.root_page_id
          tree.first
          invalid_page_id
          tree.leaves
          tree.pages
          es
    here = place key p

    pub behind_front :
        Sorted (here.items ++ here.behind)
        × AllOfKind t.metadata.key_kind (here.items ++ here.behind)
    behind_front = (
      (Sorted-split here.front (here.items ++ here.behind)
          (subst Sorted here.between.0 tree.sorted)).1,
      (All-split (λ e. OfKind t.metadata.key_kind e.0) here.front (here.items ++ here.behind)
          (subst (AllOfKind t.metadata.key_kind) here.between.0 tree.of_kind)).1,
    )

    pub in_items : Searched key here.items
    in_items =
        searched t.metadata.key_kind key here.items p
          ((All-split (λ e. OfKind t.metadata.key_kind e.0) here.items here.behind
            behind_front.1).0)
          ((Sorted-split here.items here.behind behind_front.0).0)

    pub entry_here : find_entry key es ≡ find_entry key here.items
    entry_here =
        ap (find_entry key) here.between.0
        ∙ find_entry-AllBelow key here.front (here.items ++ here.behind) here.between.1
        ∙ find_entry-AllAbove key here.items here.behind here.between.2

    found_in_leaf : find_in_leaf here.leaf key ≡ ok (find_entry key es)
    found_in_leaf =
        in_leaf t here.page here.following here.items here.leaf key here.is_leaf in_items
        ∙ ap ok (sym entry_here)

  -- On a tree, `find` ends without an exception and answers the record of the key, for each key of
  -- the index's kind; nothing, where no entry has the key.
  pub find-IsTree :
      (key : IndexKey) → OfKind t.metadata.key_kind key → find key t ≡ ok (find_entry key es)
  unfolding find
  find-IsTree key p =
      rw (valid_kind key p, tree.rooted, find) ((place key p).finds ∙ found_in_leaf key p)

  -- What an insertion or an erasure sees of the leaf whose keys it looks at.
  pub searches_leaf :
      (key : IndexKey) (p : OfKind t.metadata.key_kind key)
      → search_leaf key t ≡ (
        t,
        ok (
          (place key p).leaf,
          ((place key p).leads []).0,
          (in_items key p).i,
          is_some (find_entry key es),
        ),
      )
  unfolding find_leaf
  searches_leaf key p =
      let r = place key p in
      let s = in_items key p in
      rw ((r.leads []).1, r.is_leaf.keys, s.bound, s.stands, s.tells, entry_here key p) refl

  -- A key that is there is refused by `insert`, and one that is not there is none for `erase`; in
  -- both cases nothing of the index changes, neither its pages nor its metadata.
  pub insert-again :
      (key : IndexKey) (record_id r : ℕ)
      → OfKind t.metadata.key_kind key
      → find_entry key es ≡ some r
      → insert key record_id t ≡ (t, err invalid_argument)
  unfolding insert insert_beside_others
  insert-again key record_id r p h = rw (valid_kind key p, tree.rooted, searches_leaf key p, h) refl

  pub erase-absent :
      (key : IndexKey)
      → OfKind t.metadata.key_kind key
      → find_entry key es ≡ none
      → erase key t ≡ (t, ok false)
  unfolding erase
  erase-absent key p h = rw (valid_kind key p, tree.rooted, searches_leaf key p, h) refl
