-- ===== src/Index/Tree/Range.antt =====
-- `range_search` on a tree.
use dbms_project_sp.Base.{
  ℕ, zero, suc, ◌<◌, ◌≡◌, refl, sym, ap, subst, ◌∙◌, Bool, true, false, ◌||◌, [], ◌∷◌, ◌++◌,
  if◌then◌else◌, ◌==◌, append-nil, ok, ◌>>=◌, arith, Bool-cases, inl, inr,
}
use dbms_project_sp.Index.Key.{IndexKey}
use dbms_project_sp.Index.Order.{OfKind, below, compared, below-not_below}
use dbms_project_sp.Index.Entries.{
  Entries, records_between, Sorted, Sorted-split, AllOfKind, AllAbove, All-split,
  records_between-AllBelow, records_between-AllAbove, records_between-append,
}
use dbms_project_sp.Index.Disk.{invalid_page_id, page_count}
use dbms_project_sp.Index.Node.{IndexNode}
use dbms_project_sp.Index.Tree.{
  BStarPlusIndex, node_at, find_leaf, scan_leaf, scan_leaves, range_search,
}
use dbms_project_sp.Index.Tree.Shape.{IsTree, IsLeaf, Chain}
use dbms_project_sp.Index.Tree.Found.{node_at-valid}
use dbms_project_sp.Index.Tree.Leaf.{keys_of, records_of, scanned}
use dbms_project_sp.Index.Tree.Searches.{valid_kind, place, behind_front}

-- No key stands between two that are the wrong way round.
none_between :
    (t : BStarPlusIndex) (low high : IndexKey) (es : Entries)
    → OfKind t.metadata.key_kind low
    → AllOfKind t.metadata.key_kind es
    → below high low ≡ true
    → records_between low high es ≡ []
none_between t low high [] p q h = refl
none_between t low high ((k, r) ∷ es) p q h = elim (Bool-cases (below k low)) [
  | inl e ↦ rw e (none_between t low high es p q.1 h)
  | inr e ↦
      rw (e, below-not_below t.metadata.key_kind high low k p q.0 h e)
        (none_between t low high es p q.1 h)
]

either_end : {A : Type 0} (a b : Bool) (x y : A) → b ≡ true → (if a || b then x else y) ≡ x
either_end true b x y e = refl
either_end false b x y e = rw e refl

module _ (t : BStarPlusIndex) (low high : IndexKey) (p : OfKind t.metadata.key_kind low)
    (q : OfKind t.metadata.key_kind high) where
  -- The records of this leaf are all, if the scan ends in it.
  ends_here :
      (items rest : Entries) (done : Bool)
      → done ≡ true
      → (done ≡ true → AllAbove high rest)
      → records_between low high items ≡ records_between low high (items ++ rest)
  ends_here items rest done e ends = sym (
      records_between-append low high items rest
      ∙ ap (λ l. records_between low high items ++ l)
          (records_between-AllAbove low high rest (ends e))
      ∙ append-nil (records_between low high items))

  -- One round of the loop, in which the scan gave some records and tells whether it ended.
  leaf_step :
      (fuel page following : ℕ) (leaf : IndexNode) (items : Entries) (done : Bool)
      → IsLeaf t page following items leaf
      → scan_leaf low high (keys_of items) (records_of items)
        ≡ ok (records_between low high items, done)
      → scan_leaves (suc fuel) low high leaf t ≡ (
          if done || following == invalid_page_id
          then ok (records_between low high items)
          else node_at following t >>= λ next. scan_leaves fuel low high next t >>= λ rest.
              ok (records_between low high items ++ rest))
  unfolding scan_leaves
  leaf_step fuel page following leaf items done l scans =
      let valid = node_at-valid t low p page leaf l.read in
      rw (l.own, valid.0, valid.1, l.keys, l.records, scans, l.following) refl

  scanned_leaves :
      (others fuel page following : ℕ) (leaf : IndexNode) (items rest : Entries)
      → others < fuel
      → IsLeaf t page following items leaf
      → Chain t others following invalid_page_id rest
      → Sorted (items ++ rest)
      → AllOfKind t.metadata.key_kind (items ++ rest)
      → scan_leaves fuel low high leaf t ≡ ok (records_between low high (items ++ rest))
  scanned_leaves others zero page following leaf items rest f l chain s k =
      absurd (omega (arith, f))
  scanned_leaves zero (suc fuel) page following leaf items rest f l (last, empty) s k =
      let of_items = (All-split (λ e. OfKind t.metadata.key_kind e.0) items rest k).0 in
      let (done, scans, ends) = scanned t.metadata.key_kind low high items rest p q of_items s in
      leaf_step fuel page following leaf items done l scans
      ∙ either_end done (following == invalid_page_id) _ _ (ground (arith, last))
      ∙ ap (λ l. ok (records_between low high l))
          (sym (append-nil items) ∙ ap (λ l. items ++ l) (sym empty))
  scanned_leaves (suc others) (suc fuel) page following leaf items rest f l
        (next, beyond, next_items, more, next_l, chain, is_rest) s k =
      let next_valid = node_at-valid t low p following next next_l.read in
      let of_items = All-split (λ e. OfKind t.metadata.key_kind e.0) items rest k in
      let (done, scans, ends) = scanned t.metadata.key_kind low high items rest p q of_items.0 s in
      let sorted_rest = (Sorted-split items rest s).1 in
      leaf_step fuel page following leaf items done l scans ∙ elim (Bool-cases done) [
        | inl e ↦ rw e (ap ok (ends_here items rest done e ends))
        | inr e ↦
            rw (e, next_valid.0, next_l.read)
              (ap (λ r. r >>= λ others. ok (records_between low high items ++ others))
                  (scanned_leaves others fuel following beyond next next_items more
                    (omega (arith, f)) next_l chain (subst Sorted is_rest sorted_rest)
                    (subst (AllOfKind t.metadata.key_kind) is_rest of_items.1))
                ∙ ap ok (
                    sym (records_between-append low high items (next_items ++ more))
                    ∙ ap (λ l. records_between low high (items ++ l)) (sym is_rest)))
      ]

-- On a tree, `range_search` ends without an exception and answers the records of the entries whose
-- keys stand from `low` to `high`, in the order of the keys, for bounds of the index's kind.
pub range_search-IsTree :
    (t : BStarPlusIndex) (es : Entries) (low high : IndexKey)
    → IsTree t es
    → OfKind t.metadata.key_kind low
    → OfKind t.metadata.key_kind high
    → range_search low high t ≡ ok (records_between low high es)
unfolding range_search find_leaf
range_search-IsTree t es low high tree p q =
    let tested = (compared t.metadata.key_kind high low q p).0 in
    elim (Bool-cases (below high low)) [
      | inl e ↦
          rw
            (
              valid_kind t es tree low p,
              valid_kind t es tree high q,
              tree.rooted,
              tested,
              e,
              none_between t low high es p tree.of_kind e,
            )
            refl
      | inr e ↦
          let r = place t es tree low p in
          let (path, leads) = r.leads [] in
          let (sorted, of_kind) = behind_front t es tree low p in
          rw
            (valid_kind t es tree low p, valid_kind t es tree high q, tree.rooted, tested, e, leads)
            (scanned_leaves t low high p q r.others (suc (page_count t.disk_manager)) r.page
                r.following r.leaf r.items r.behind (omega (arith, r.fewer, tree.leaves_fit))
                r.is_leaf r.chain sorted of_kind
              ∙ ap ok (
                  sym (
                    ap (records_between low high) r.between.0
                    ∙ records_between-AllBelow low high r.front (r.items ++ r.behind) r.between.1)))
    ]
