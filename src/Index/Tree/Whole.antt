-- ===== src/Index/Tree/Whole.antt =====
-- The operations on any index, with entries or without.
use dbms_project_sp.Base.{
  ℕ, suc, ◌^◌, ◌<◌, ◌≡◌, ◌⊎◌, refl, sym, ap, subst, [], ok, err, Result-cases, inl, inr,
}
use dbms_project_sp.Index.Scalar.{IndexError}
use dbms_project_sp.Index.Key.{IndexKey, KeyInRange, validate_key_kind}
use dbms_project_sp.Index.Order.{OfKind}
use dbms_project_sp.Index.Entries.{Entries, find_entry, records_between}
use dbms_project_sp.Index.Entries.Change.{insert_entry}
use dbms_project_sp.Index.Disk.{page_count}
use dbms_project_sp.Index.Node.{serialize_node}
use dbms_project_sp.Index.Tree.{BStarPlusIndex, find, range_search}
use dbms_project_sp.Index.Tree.Shape.{IsTree, IsEmpty, IsIndex}
use dbms_project_sp.Index.Tree.Searches.{find-IsTree}
use dbms_project_sp.Index.Tree.Range.{range_search-IsTree}
use dbms_project_sp.Index.Tree.Rewritten.{OnDisk}
use dbms_project_sp.Index.Tree.Insertion.{InsertEnds, insert-IsTree}
use dbms_project_sp.Index.Tree.Erasure.{EraseEnds, erase-IsTree}
use dbms_project_sp.Index.Tree.First.{
  HasRoom, new_count, lone_leaf, first_leaf, with_page, insert-unwritten, planted, insert-planted,
  planted-IsTree, planted-OnDisk,
}
use dbms_project_sp.Index.Tree.Update.{insert, erase}

of_valid_kind :
    (t : BStarPlusIndex) (key : IndexKey)
    → OfKind t.metadata.key_kind key
    → validate_key_kind key t.metadata.key_kind ≡ ok tt
unfolding validate_key_kind
of_valid_kind t key p = rw p refl

-- On an index, `find` ends without an exception and answers the record of the key, for each key of
-- the index's kind; nothing, where no entry has the key.
pub find-IsIndex :
    (t : BStarPlusIndex) (es : Entries) (key : IndexKey)
    → IsIndex t es
    → OfKind t.metadata.key_kind key
    → find key t ≡ ok (find_entry key es)
unfolding find
find-IsIndex t es key (inl tree) p = find-IsTree t es tree key p
find-IsIndex t es key (inr (empty, no_entries)) p =
    rw (of_valid_kind t key p, empty.no_root) (ap (λ l. ok (find_entry key l)) (sym no_entries))

-- On an index, `range_search` ends without an exception and answers the records of the entries whose
-- keys stand from `low` to `high`, in the order of the keys, for bounds of the index's kind.
pub range_search-IsIndex :
    (t : BStarPlusIndex) (es : Entries) (low high : IndexKey)
    → IsIndex t es
    → OfKind t.metadata.key_kind low
    → OfKind t.metadata.key_kind high
    → range_search low high t ≡ ok (records_between low high es)
unfolding range_search
range_search-IsIndex t es low high (inl tree) p q = range_search-IsTree t es low high tree p q
range_search-IsIndex t es low high (inr (empty, no_entries)) p q =
    rw (of_valid_kind t low p, of_valid_kind t high q, empty.no_root)
      (ap (λ l. ok (records_between low high l)) (sym no_entries))

-- A leaf of the first key cannot be written: its page is there, and the index is without entries as before.
abbrev pub Unwritten : (t : BStarPlusIndex) (es : Entries) → IndexKey → ℕ → Type 0
Unwritten t es key record_id =
    (u : BStarPlusIndex) × (e : IndexError) × (serialize_node (lone_leaf t key record_id)
        t.metadata.key_kind
      ≡ err e)
    × (es ≡ [])
    × (insert key record_id t ≡ (u, err e))
    × IsEmpty u
    × (u.metadata ≡ t.metadata)
    × (page_count u.disk_manager ≡ suc (page_count t.disk_manager))

-- On an index in a file of whole pages, for a key and a record of the machine and of the index's
-- kind, and where neither the count of the entries nor the page ids overflow, `insert` throws and
-- changes nothing where the key is there already. Otherwise, where the index is empty or the leaf in
-- which the key belongs has room for it, and the key can be written, `insert` returns, and leaves a
-- tree in such a file with the key in its place among the others, and counted; the constructor makes
-- that very index of the bytes of the file. In the third case the leaf, which is named, is one that
-- cannot be written with the key; in the last one the index is empty, a leaf of the key alone cannot
-- be written, and the index stays empty, with one page more in its file.
pub insert-IsIndex :
    (t : BStarPlusIndex) (es : Entries) (key : IndexKey) (record_id : ℕ)
    → IsIndex t es
    → OnDisk t
    → OfKind t.metadata.key_kind key
    → KeyInRange key
    → record_id < 2 ^ 64
    → suc t.metadata.size < 2 ^ 64
    → HasRoom t.disk_manager
    → InsertEnds t es key record_id ⊎ Unwritten t es key record_id
insert-IsIndex t es key record_id (inl tree) disk p in_range small counts room =
    inl (insert-IsTree t es key record_id tree disk p in_range small counts)
insert-IsIndex t es key record_id (inr (empty, no_entries)) disk p in_range small counts room =
    let leaf = first_leaf t empty room key p in_range record_id small in
    elim (Result-cases (serialize_node leaf t.metadata.key_kind)) [
      | inl (page, fits) ↦
          let (on_disk, reopens) =
            planted-OnDisk t empty room key p in_range record_id small page fits disk in
          let u = planted t empty room key p in_range record_id small page fits in
          inl (
            inr (
              inl (
                u,
                ap (find_entry key) no_entries,
                insert-planted t empty room key p in_range record_id small page fits,
                subst (λ l. IsTree u (insert_entry key record_id l)) (sym no_entries)
                    (planted-IsTree t empty room key p in_range record_id small page fits),
                on_disk,
                reopens,
              )))
      | inr (e, full) ↦ inr (
        with_page t empty room key p in_range record_id small,
        e,
        full,
        no_entries,
        insert-unwritten t empty room key p in_range record_id small e full,
        record { no_root = empty.no_root; counted = empty.counted },
        refl,
        new_count t.disk_manager room,
      )
    ]

-- On an index in a file of whole pages, for a key of the index's kind, `erase` answers that there was
-- nothing and changes nothing where the key is not there. Where it is the last key of the index, or
-- is not the least of its leaf and leaves a leaf that has enough keys and can be written, `erase`
-- answers that it was there, and leaves an index in such a file without the key and with the other
-- entries, counted; the constructor makes that very index of the bytes of the file. Otherwise the
-- leaf and its position are named, with which of these does not hold.
pub erase-IsIndex :
    (t : BStarPlusIndex) (es : Entries) (key : IndexKey)
    → IsIndex t es
    → OnDisk t
    → OfKind t.metadata.key_kind key
    → EraseEnds t es key
unfolding erase
erase-IsIndex t es key (inl tree) disk p = erase-IsTree t es key tree disk p
erase-IsIndex t es key (inr (empty, no_entries)) disk p =
    inl (ap (find_entry key) no_entries, rw (of_valid_kind t key p, empty.no_root) refl)
