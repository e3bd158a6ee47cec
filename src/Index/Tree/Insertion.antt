-- ===== src/Index/Tree/Insertion.antt =====
-- What `insert` does on a tree.
use dbms_project_sp.Base.{
  ℕ, zero, suc, ◌%◌, ◌^◌, ◌<◌, ◌≡◌, ◌⊎◌, refl, ap, subst, ◌∙◌, false, ◌++◌, List, [], ◌∷◌, none,
  some, Bytes, ok, err, arith, All, Option-cases, Result-cases, inl, inr, if◌then◌else◌,
}
use dbms_project_sp.Base.Vector.{insert_at}
use dbms_project_sp.Index.Scalar.{IndexError, invalid_argument}
use dbms_project_sp.Index.Key.{IndexKey, KeyInRange}
use dbms_project_sp.Index.Order.{OfKind}
use dbms_project_sp.Index.Entries.{Entries, find_entry, All-imp}
use dbms_project_sp.Index.Entries.Change.{
  insert_entry, insert_entry-AllBelow, insert_entry-AllAbove, All-insert_entry, insert_entry-Sorted,
  length-insert_entry,
}
use dbms_project_sp.Index.Node.{IndexNode, serialize_node}
use dbms_project_sp.Index.Node.Reads.{IsMachine}
use dbms_project_sp.Index.Tree.{BStarPlusIndex}
use dbms_project_sp.Index.Tree.Nodes.{node_fits_page}
use dbms_project_sp.Index.Tree.Shape.{IsTree}
use dbms_project_sp.Index.Tree.Chosen.{AmongKeys, Grown}
use dbms_project_sp.Index.Tree.Found.{own_keys}
use dbms_project_sp.Index.Tree.Searches.{valid_kind, place, in_items, searches_leaf, insert-again}
use dbms_project_sp.Index.Tree.Rewritten.{
  OnDisk, Reopens, Change, rewritten, written-changed, rewritten-IsTree, rewritten-OnDisk,
}
use dbms_project_sp.Index.Tree.Update.{search_leaf, insert, insert_beside_others}

All-insert_at :
    {A : Type 0} (P : A → Type 0) (i : ℕ) (v : A) (xs : List A)
    → P v
    → All P xs
    → All P (insert_at i v xs)
All-insert_at P zero v xs p h = (p, h)
All-insert_at P (suc i) v [] p h = (p, tt)
All-insert_at P (suc i) v (x ∷ xs) p h = (h.0, All-insert_at P i v xs p h.1)

-- A leaf with a key and its record put in at a position.
abbrev pub with_key : ℕ → IndexKey → ℕ → IndexNode → IndexNode
with_key i key record_id leaf = record leaf {
  keys = insert_at i key leaf.keys;
  records = insert_at i record_id leaf.records;
}

module _ (t : BStarPlusIndex) (es : Entries) (tree : IsTree t es) (key : IndexKey)
    (p : OfKind t.metadata.key_kind key) (in_range : KeyInRange key) (record_id : ℕ)
    (small : record_id < 2 ^ 64) (room : suc t.metadata.size < 2 ^ 64)
    (absent : find_entry key es ≡ none) where
  abbrev pub grown_leaf : IndexNode
  grown_leaf = with_key (in_items t es tree key p).i key record_id (place t es tree key p).leaf

  grown_leaf-IsMachine : IsMachine grown_leaf
  grown_leaf-IsMachine =
      let l = (place t es tree key p).is_leaf in
      record {
        own = l.machine.own;
        next = l.machine.next;
        in_keys = All-insert_at KeyInRange _ key _ in_range l.machine.in_keys;
        in_payload = rw l.is_leaf (
            All-insert_at (λ n. n < 2 ^ 64) _ record_id _ small
              (subst
                (λ b.
                  All (λ n. n < 2 ^ 64)
                    (if b
                      then (place t es tree key p).leaf.records
                      else (place t es tree key p).leaf.children))
                l.is_leaf l.machine.in_payload));
      }

  module _ (page : Bytes) (fits : serialize_node grown_leaf t.metadata.key_kind ≡ ok page) where
    abbrev items : Entries
    items = (place t es tree key p).items

    new_keys : Grown key items (insert_entry key record_id items)
    new_keys =
        All-insert_entry (λ k. (k ≡ key) ⊎ AmongKeys k items) key record_id items (inl refl)
          (All-imp (λ e. AmongKeys e.0 items) (λ e. (e.0 ≡ key) ⊎ AmongKeys e.0 items) items
            (λ e h. inr h) (own_keys items))

    grown_leaf-Change : Change t es tree key p grown_leaf (insert_entry key record_id items)
    grown_leaf-Change =
        let l = (place t es tree key p).is_leaf in
        let s = in_items t es tree key p in
        let (keys, records) = s.inserts record_id in
        record {
          is_leaf = l.is_leaf;
          own = l.own;
          following = l.following;
          keys = ap (insert_at s.i key) l.keys ∙ keys;
          records = ap (insert_at s.i record_id) l.records ∙ records;
          no_children = l.no_children;
          machine = grown_leaf-IsMachine;
          grown = new_keys;
        }

    abbrev grown : BStarPlusIndex
    grown =
        rewritten t es tree key p grown_leaf (insert_entry key record_id items) grown_leaf-Change
          page fits (suc t.metadata.size % 2 ^ 64)

    insert-grown : insert key record_id t ≡ (grown, ok tt)
    unfolding insert insert_beside_others node_fits_page
    insert-grown =
        rw
          (
            valid_kind t es tree key p,
            tree.rooted,
            searches_leaf t es tree key p,
            absent,
            fits,
            written-changed t es tree key p grown_leaf (insert_entry key record_id items)
                grown_leaf-Change page fits 0 t.metadata.size,
          )
          refl

    new_entries :
        insert_entry key record_id es
        ≡ (place t es tree key p).front
          ++ (insert_entry key record_id items ++ (place t es tree key p).behind)
    new_entries =
        let r = place t es tree key p in
        ap (insert_entry key record_id) r.between.0
        ∙ insert_entry-AllBelow key record_id r.front (r.items ++ r.behind) r.between.1
        ∙ ap (λ l. r.front ++ l) (insert_entry-AllAbove key record_id r.items r.behind r.between.2)

    grown-IsTree : IsTree grown (insert_entry key record_id es)
    grown-IsTree =
        rewritten-IsTree t es tree key p grown_leaf (insert_entry key record_id items)
          grown_leaf-Change page fits (suc t.metadata.size % 2 ^ 64) (insert_entry key record_id es)
          new_entries (omega (arith, tree.counted, room, length-insert_entry key record_id es))
          (insert_entry-Sorted t.metadata.key_kind key record_id es p tree.of_kind absent
            tree.sorted)
          (All-insert_entry (OfKind t.metadata.key_kind) key record_id es p tree.of_kind)

    grown-OnDisk : OnDisk t → OnDisk grown × Reopens grown
    grown-OnDisk disk =
        rewritten-OnDisk t es tree key p grown_leaf (insert_entry key record_id items)
          grown_leaf-Change page fits (suc t.metadata.size % 2 ^ 64) disk (omega arith)

-- How `insert` ends: the key is there, and nothing changes; or its place is in a leaf that has room
-- for it, and it is there behind the call, also for one who opens the file; or that leaf has no room
-- for it.
abbrev pub InsertEnds : (t : BStarPlusIndex) (es : Entries) → IndexKey → ℕ → Type 0
InsertEnds t es key record_id =
    ((r : ℕ) × (find_entry key es ≡ some r) × (insert key record_id t ≡ (t, err invalid_argument)))
    ⊎ ((u : BStarPlusIndex) × (find_entry key es ≡ none)
        × (insert key record_id t ≡ (u, ok tt))
        × IsTree u (insert_entry key record_id es)
        × OnDisk u
        × Reopens u)
    ⊎ ((leaf : IndexNode) × (path : List ℕ) × (i : ℕ) × (e : IndexError) × (find_entry key es
          ≡ none)
        × (search_leaf key t ≡ (t, ok (leaf, path, i, false)))
        × (serialize_node (with_key i key record_id leaf) t.metadata.key_kind ≡ err e))

-- What `insert` does on an index with entries, in the words of its ends.
pub insert-IsTree :
    (t : BStarPlusIndex) (es : Entries) (key : IndexKey) (record_id : ℕ)
    → IsTree t es
    → OnDisk t
    → OfKind t.metadata.key_kind key
    → KeyInRange key
    → record_id < 2 ^ 64
    → suc t.metadata.size < 2 ^ 64
    → InsertEnds t es key record_id
insert-IsTree t es key record_id tree disk p in_range small room =
    elim (Option-cases (find_entry key es)) [
      | inr (r, there) ↦ inl (r, there, insert-again t es tree key record_id r p there)
      | inl absent ↦
          let leaf = grown_leaf t es tree key p in_range record_id small room absent in
          elim (Result-cases (serialize_node leaf t.metadata.key_kind)) [
            | inl (page, fits) ↦
                let (on_disk, reopens) =
                  grown-OnDisk t es tree key p in_range record_id small room absent page fits
                    disk in
                inr (
                  inl (
                    grown t es tree key p in_range record_id small room absent page fits,
                    absent,
                    insert-grown t es tree key p in_range record_id small room absent page fits,
                    grown-IsTree t es tree key p in_range record_id small room absent page fits,
                    on_disk,
                    reopens,
                  ))
            | inr (e, full) ↦ inr (
                inr (
                  (place t es tree key p).leaf,
                  ((place t es tree key p).leads []).0,
                  (in_items t es tree key p).i,
                  e,
                  absent,
                  rw absent at (searches_leaf t es tree key p),
                  full,
                ))
          ]
    ]
