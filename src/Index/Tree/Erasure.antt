-- ===== src/Index/Tree/Erasure.antt =====
-- What `erase` does on a tree.
use dbms_project_sp.Base.{
  ℕ, zero, suc, ◌-◌, ◌^◌, ◌<◌, ◌≡◌, ◌⊎◌, refl, sym, ap, subst, ◌∙◌, true, false, ◌==◌, ◌++◌, List,
  [], ◌∷◌, none, some, Bytes, ok, err, arith, All, Bool-cases, Option-cases, Result-cases, inl, inr,
  if◌then◌else◌,
}
use dbms_project_sp.Base.Vector.{erase_at}
use dbms_project_sp.Index.Scalar.{IndexError}
use dbms_project_sp.Index.Key.{IndexKey, KeyInRange}
use dbms_project_sp.Index.Order.{OfKind}
use dbms_project_sp.Index.Entries.{Entries, find_entry, All-imp}
use dbms_project_sp.Index.Entries.Change.{
  erase_entry, erase_entry-AllBelow, erase_entry-AllAbove, All-erase_entry, erase_entry-Sorted,
  find_entry-erase_entry, length-erase_entry,
}
use dbms_project_sp.Index.Node.{IndexNode, serialize_node}
use dbms_project_sp.Index.Node.Reads.{IsMachine}
use dbms_project_sp.Index.Tree.{BStarPlusIndex}
use dbms_project_sp.Index.Tree.Shape.{IsTree, IsIndex}
use dbms_project_sp.Index.Tree.Chosen.{AmongKeys, Grown}
use dbms_project_sp.Index.Tree.Found.{own_keys}
use dbms_project_sp.Index.Tree.Leaf.{is_some}
use dbms_project_sp.Index.Tree.Searches.{
  valid_kind, place, in_items, entry_here, searches_leaf, erase-absent,
}
use dbms_project_sp.Index.Tree.Rewritten.{
  OnDisk, Reopens, Change, rewritten, written-changed, rewritten-IsTree, rewritten-OnDisk,
}
use dbms_project_sp.Index.Tree.Emptied.{
  emptied, erase-emptied, emptied-IsEmpty, no_entries_left, emptied-OnDisk,
}
use dbms_project_sp.Index.Tree.Update.{search_leaf, erase, erase_found, has_enough, was_least}

All-erase_at :
    {A : Type 0} (P : A → Type 0) (i : ℕ) (xs : List A) → All P xs → All P (erase_at i xs)
All-erase_at P zero [] h = tt
All-erase_at P zero (x ∷ xs) h = h.1
All-erase_at P (suc i) [] h = tt
All-erase_at P (suc i) (x ∷ xs) h = (h.0, All-erase_at P i xs h.1)

-- A leaf without the key and the record at a position.
abbrev pub without_key : ℕ → IndexNode → IndexNode
without_key i leaf = record leaf { keys = erase_at i leaf.keys; records = erase_at i leaf.records }

module _ (t : BStarPlusIndex) (es : Entries) (tree : IsTree t es) (key : IndexKey)
    (p : OfKind t.metadata.key_kind key) (record_id : ℕ)
    (there : find_entry key es ≡ some record_id) where
  abbrev position : ℕ
  position = (in_items t es tree key p).i

  abbrev left_leaf : IndexNode
  left_leaf = without_key position (place t es tree key p).leaf

  abbrev left_items : Entries
  left_items = erase_entry key (place t es tree key p).items

  left_leaf-IsMachine : IsMachine left_leaf
  left_leaf-IsMachine =
      let l = (place t es tree key p).is_leaf in
      record {
        own = l.machine.own;
        next = l.machine.next;
        in_keys = All-erase_at KeyInRange position _ l.machine.in_keys;
        in_payload = rw l.is_leaf (
            All-erase_at (λ n. n < 2 ^ 64) position _
              (subst
                (λ b.
                  All (λ n. n < 2 ^ 64)
                    (if b
                      then (place t es tree key p).leaf.records
                      else (place t es tree key p).leaf.children))
                l.is_leaf l.machine.in_payload));
      }

  left_keys : Grown key (place t es tree key p).items left_items
  left_keys =
      let items = (place t es tree key p).items in
      All-erase_entry (λ k. (k ≡ key) ⊎ AmongKeys k items) key items
        (All-imp (λ e. AmongKeys e.0 items) (λ e. (e.0 ≡ key) ⊎ AmongKeys e.0 items) items
          (λ e h. inr h) (own_keys items))

  left_leaf-Change : Change t es tree key p left_leaf left_items
  left_leaf-Change =
      let l = (place t es tree key p).is_leaf in
      let s = in_items t es tree key p in
      let stands = s.tells ∙ ap is_some (sym (entry_here t es tree key p) ∙ there) in
      let (keys, records) = s.erases stands in
      record {
        is_leaf = l.is_leaf;
        own = l.own;
        following = l.following;
        keys = ap (erase_at s.i) l.keys ∙ keys;
        records = ap (erase_at s.i) l.records ∙ records;
        no_children = l.no_children;
        machine = left_leaf-IsMachine;
        grown = left_keys;
      }

  left_entries :
      erase_entry key es
      ≡ (place t es tree key p).front ++ (left_items ++ (place t es tree key p).behind)
  left_entries =
      let r = place t es tree key p in
      ap (erase_entry key) r.between.0
      ∙ erase_entry-AllBelow key r.front (r.items ++ r.behind) r.between.1
      ∙ ap (λ l. r.front ++ l) (erase_entry-AllAbove key r.items r.behind r.between.2)

  module _ (page : Bytes) (fits : serialize_node left_leaf t.metadata.key_kind ≡ ok page) where
    abbrev left : BStarPlusIndex
    left =
        rewritten t es tree key p left_leaf left_items left_leaf-Change page fits
          (t.metadata.size - 1)

    erase-left :
        (t.metadata.size - 1 == 0) ≡ false
        → has_enough left_leaf t ≡ true
        → was_least position left_leaf ≡ false
        → erase key t ≡ (left, ok true)
    unfolding erase erase_found
    erase-left others enough not_least =
        rw
          (
            valid_kind t es tree key p,
            tree.rooted,
            searches_leaf t es tree key p,
            there,
            others,
            enough,
            written-changed t es tree key p left_leaf left_items left_leaf-Change page fits 0
                (t.metadata.size - 1),
            not_least,
          )
          refl

    left-IsTree : IsTree left (erase_entry key es)
    left-IsTree =
        rewritten-IsTree t es tree key p left_leaf left_items left_leaf-Change page fits
          (t.metadata.size - 1) (erase_entry key es) left_entries
          (omega (arith, tree.counted, length-erase_entry key es there))
          (erase_entry-Sorted key es tree.sorted)
          (All-erase_entry (OfKind t.metadata.key_kind) key es tree.of_kind)

    left-OnDisk : OnDisk t → OnDisk left × Reopens left
    left-OnDisk disk =
        rewritten-OnDisk t es tree key p left_leaf left_items left_leaf-Change page fits
          (t.metadata.size - 1) disk (omega (arith, disk.in_fields.size))

-- What more than a new leaf an erasure takes: the leaf has too few keys without the key; or it is the
-- least of the leaf; or the leaf without it cannot be written.
abbrev pub TakesMore : BStarPlusIndex → ℕ → IndexNode → Type 0
TakesMore t i leaf =
    (has_enough leaf t ≡ false)
    ⊎ (was_least i leaf ≡ true)
    ⊎ ((e : IndexError) × (serialize_node leaf t.metadata.key_kind ≡ err e))

-- How `erase` ends: the key is not there, and nothing changes; or it is taken out of its leaf; or the
-- leaf is one that takes more than that.
abbrev pub EraseEnds : (t : BStarPlusIndex) (es : Entries) → IndexKey → Type 0
EraseEnds t es key =
    ((find_entry key es ≡ none) × (erase key t ≡ (t, ok false)))
    ⊎ ((u : BStarPlusIndex) × (r : ℕ) × (find_entry key es ≡ some r)
        × (erase key t ≡ (u, ok true))
        × IsIndex u (erase_entry key es)
        × (find_entry key (erase_entry key es) ≡ none)
        × OnDisk u
        × Reopens u)
    ⊎ ((leaf : IndexNode) × (path : List ℕ) × (i : ℕ) × (search_leaf key t
          ≡ (t, ok (leaf, path, i, true)))
        × TakesMore t i (without_key i leaf))

-- What `erase` does on an index with entries, in the words of its ends.
pub erase-IsTree :
    (t : BStarPlusIndex) (es : Entries) (key : IndexKey)
    → IsTree t es
    → OnDisk t
    → OfKind t.metadata.key_kind key
    → EraseEnds t es key
erase-IsTree t es key tree disk p = elim (Option-cases (find_entry key es)) [
  | inl absent ↦ inl (absent, erase-absent t es tree key p absent)
  | inr (r, there) ↦
      let i = (in_items t es tree key p).i in
      let leaf = left_leaf t es tree key p r there in
      let more : TakesMore t i leaf → EraseEnds t es key = λ m. inr (
        inr (
          (place t es tree key p).leaf,
          ((place t es tree key p).leads []).0,
          i,
          rw there at (searches_leaf t es tree key p),
          m,
        )) in
      elim (Bool-cases (t.metadata.size - 1 == 0)) [
        | inl last ↦
            let (on_disk, reopens) = emptied-OnDisk t es tree key p r there last disk in
            inr (
              inl (
                emptied t es tree key p r there last,
                r,
                there,
                erase-emptied t es tree key p r there last,
                inr (
                  emptied-IsEmpty t es tree key p r there last,
                  no_entries_left t es tree key p r there last,
                ),
                find_entry-erase_entry key es tree.sorted,
                on_disk,
                reopens,
              ))
        | inr others ↦ elim (Bool-cases (has_enough leaf t)) [
          | inr few ↦ more (inl few)
          | inl enough ↦ elim (Bool-cases (was_least i leaf)) [
            | inl least ↦ more (inr (inl least))
            | inr not_least ↦ elim (Result-cases (serialize_node leaf t.metadata.key_kind)) [
              | inr (e, full) ↦ more (inr (inr (e, full)))
              | inl (page, fits) ↦
                  let (on_disk, reopens) = left-OnDisk t es tree key p r there page fits disk in
                  inr (
                    inl (
                      left t es tree key p r there page fits,
                      r,
                      there,
                      erase-left t es tree key p r there page fits others enough not_least,
                      inl (left-IsTree t es tree key p r there page fits),
                      find_entry-erase_entry key es tree.sorted,
                      on_disk,
                      reopens,
                    ))
            ]
          ]
        ]
      ]
]
