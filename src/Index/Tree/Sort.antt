-- ===== src/Index/Tree/Sort.antt =====
-- The keys of a leaf with their records, and `std::sort` of them by their keys.
use dbms_project_sp.Base.{ℕ, true, false, List, [], ◌∷◌, Result, ok, ◌>>=◌}
use dbms_project_sp.Index.Scalar.{IndexError}
use dbms_project_sp.Index.Key.{IndexKey, key_less}
use dbms_project_sp.Index.Node.{IndexNode}

abbrev pub Items : Type 0
Items = List (IndexKey × ℕ)

abbrev pub items_from : List IndexKey → List ℕ → Items
items_from (k ∷ keys) (r ∷ records) = (k, r) ∷ items_from keys records
items_from _ _ = []

abbrev pub items_of : IndexNode → Items
items_of node = items_from node.keys node.records

unfoldable pub insert_sorted : IndexKey × ℕ → Items → Result IndexError Items
insert_sorted item [] = ok (item ∷ [])
insert_sorted item (x ∷ items) = key_less x.0 item.0 >>= λ less. elim less [
  | true ↦ insert_sorted item items >>= λ rest. ok (x ∷ rest)
  | false ↦ ok (item ∷ x ∷ items)
]

-- `std::sort` by the keys.
unfoldable pub sort_items : Items → Result IndexError Items
sort_items [] = ok []
sort_items (item ∷ items) = sort_items items >>= insert_sorted item
