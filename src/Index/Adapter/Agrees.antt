-- ===== src/Index/Adapter/Agrees.antt =====
-- Trees that hold the cells of the columns of a table are the indexes that a query asks for.
use dbms_project_sp.Base.{
  ℕ, ◌≡◌, ◌≢◌, refl, sym, subst, ◌∙◌, Bool, true, false, not, ◌&&◌, List, [], ◌∷◌, Option, some,
  get_elem?, Bool-cases, inl, inr, Among, arith, Result, ok, bytes_lt,
}
use dbms_project_sp.Base.Int.{ltb_ℤ}
use dbms_project_sp.Sql.Ast.{gte, lt}
use dbms_project_sp.Storage.Datum.{Datum, compare, three_way}
use dbms_project_sp.Storage.Table.{Table, Row, RowId, lookup}
use dbms_project_sp.Storage.Datum.Order.{bytes_lt_asymm}
use dbms_project_sp.Engine.Comparison.{accepts, is_valid}
use dbms_project_sp.Engine.Candidates.Complete.{IndexAgrees, accepts-is_valid}
use dbms_project_sp.Index.Scalar.{IndexError}
use dbms_project_sp.Index.Key.{IndexKey, IndexKeyKind, key_matches_kind}
use dbms_project_sp.Index.Order.{OfKind, below, same_key, same_key-eq}
use dbms_project_sp.Index.Entries.{Entries, find_entry, records_between}
use dbms_project_sp.Index.Tree.{BStarPlusIndex}
use dbms_project_sp.Index.Tree.Shape.{IsIndex}
use dbms_project_sp.Index.Tree.Whole.{find-IsIndex, range_search-IsIndex}
use dbms_project_sp.Index.Adapter.{to_index_key, bstarplus_adapter}

-- An entry between two keys is among those of the range.
entry-between :
    (key low high : IndexKey) (es : Entries) (r : ℕ)
    → find_entry key es ≡ some r
    → below key low ≡ false
    → below high key ≡ false
    → Among r (records_between low high es)
entry-between key low high [] r h above under = absurd (ground arith)
entry-between key low high ((k, record_id) ∷ es) r h above under =
    elim (Bool-cases (same_key k key)) [
      | inl e ↦
          let same = same_key-eq k key e in
          let is_above = subst (λ k. below k low ≡ false) (sym same) above in
          let is_under = subst (λ k. below high k ≡ false) (sym same) under in
          rw (is_above, is_under) (inl (ground (arith, rw e at h)))
      | inr e ↦
          let there = entry-between key low high es r (rw e at h) above under in
          elim (Bool-cases (not (below k low) && not (below high k))) [
            | inl b ↦ rw b (inr there)
            | inr b ↦ rw b there
          ]
    ]

-- The key of a value, beside that of another to which the value is compared.
record Keyed (x y : Datum) : Type 0 where
  x_key : IndexKey
  y_key : IndexKey
  of_x : to_index_key x ≡ ok x_key
  of_y : to_index_key y ≡ ok y_key
  same_kind : (kind : IndexKeyKind) → OfKind kind x_key → OfKind kind y_key
  above : accepts gte (compare x y) ≡ true → below x_key y_key ≡ false
  under : accepts lt (compare x y) ≡ true → below y_key x_key ≡ false

not_less : (b c : Bool) → accepts gte (three_way b c) ≡ true → b ≡ false
not_less true c h = absurd (ground arith)
not_less false c h = refl

less_not_greater :
    (b c : Bool) → (b ≡ true → c ≡ false) → accepts lt (three_way b c) ≡ true → c ≡ false
less_not_greater true c asymm h = asymm refl
less_not_greater false true asymm h = absurd (ground arith)
less_not_greater false false asymm h = refl

-- Values that can be compared are keys of one kind, in the order of the keys.
keyed : (x y : Datum) → is_valid (compare x y) ≡ true → Keyed x y
unfolding compare to_index_key key_matches_kind
keyed (Datum.int a) (Datum.int b) h = record {
  x_key = IndexKey.int64 a;
  y_key = IndexKey.int64 b;
  of_x = refl;
  of_y = refl;
  same_kind = λ kind p. p;
  above = not_less (ltb_ℤ a b) (ltb_ℤ b a);
  under = less_not_greater (ltb_ℤ a b) (ltb_ℤ b a) (λ l. ground (arith, l));
}
keyed (Datum.str a) (Datum.str b) h = record {
  x_key = IndexKey.string a;
  y_key = IndexKey.string b;
  of_x = refl;
  of_y = refl;
  same_kind = λ kind p. p;
  above = not_less (bytes_lt a b) (bytes_lt b a);
  under = less_not_greater (bytes_lt a b) (bytes_lt b a) (bytes_lt_asymm a b);
}
keyed Datum.null y h = absurd (ground arith)
keyed (Datum.int a) Datum.null h = absurd (ground arith)
keyed (Datum.int a) (Datum.str b) h = absurd (ground arith)
keyed (Datum.str a) Datum.null h = absurd (ground arith)
keyed (Datum.str a) (Datum.int b) h = absurd (ground arith)

-- An index holds a cell under the id of its row.
pub record Holds (index : BStarPlusIndex) (es : Entries) (x : Datum) (id : RowId) : Type 0 where
  pub key : IndexKey
  pub of_cell : to_index_key x ≡ ok key
  pub of_kind : OfKind index.metadata.key_kind key
  pub there : find_entry key es ≡ some id

-- The indexes of a table are those of pages, and hold the cells of their columns.
abbrev pub IndexedBy : Table BStarPlusIndex → Type 0
IndexedBy t =
    (column : ℕ) (index : BStarPlusIndex)
    → lookup column t.indexes ≡ some index
    → (es : Entries) × IsIndex index es
      × ((id : RowId) (row : Row) (x : Datum)
          → lookup id t.rows ≡ some row
          → get_elem? row column ≡ some x
          → x ≢ Datum.null
          → Holds index es x id)

ok-injective : {A : Type 0} {a b : A} → ◌≡◌ {A = Result IndexError A} (ok a) (ok b) → a ≡ b
ok-injective h = ground arith

found_held :
    (index : BStarPlusIndex) (es : Entries) (x : Datum) (id : RowId) (r : Option RowId)
    → IsIndex index es
    → Holds index es x id
    → bstarplus_adapter.find x index ≡ ok r
    → r ≡ some id
unfolding bstarplus_adapter
found_held index es x id r tree h e =
    ok-injective (sym (rw (h.of_cell, find-IsIndex index es h.key tree h.of_kind, h.there) at e))

ranged_held :
    (index : BStarPlusIndex) (es : Entries) (x low high : Datum) (id : RowId) (ids : List RowId)
    → IsIndex index es
    → Holds index es x id
    → accepts gte (compare x low) ≡ true
    → accepts lt (compare x high) ≡ true
    → bstarplus_adapter.range_search low high index ≡ ok ids
    → Among id ids
unfolding bstarplus_adapter
ranged_held index es x low high id ids tree h above under e =
    let from_low = keyed x low (accepts-is_valid gte (compare x low) above) in
    let to_high = keyed x high (accepts-is_valid lt (compare x high) under) in
    let same_low = ok-injective (sym from_low.of_x ∙ h.of_cell) in
    let same_high = ok-injective (sym to_high.of_x ∙ h.of_cell) in
    let kind = index.metadata.key_kind in
    let low_kind = from_low.same_kind kind (subst (OfKind kind) (sym same_low) h.of_kind) in
    let high_kind = to_high.same_kind kind (subst (OfKind kind) (sym same_high) h.of_kind) in
    let between =
      entry-between h.key from_low.y_key to_high.y_key es id h.there
        (subst (λ k. below k from_low.y_key ≡ false) same_low (from_low.above above))
        (subst (λ k. below to_high.y_key k ≡ false) same_high (to_high.under under)) in
    let answer =
      range_search-IsIndex index es from_low.y_key to_high.y_key tree low_kind high_kind in
    subst (Among id) (ok-injective (rw (from_low.of_y, to_high.of_y, answer) at e)) between

null_not_above : (x low : Datum) → x ≡ Datum.null → accepts gte (compare x low) ≡ true → ⊥
unfolding compare
null_not_above x low is_null h =
    absurd (ground (arith, subst (λ x. accepts gte (compare x low) ≡ true) is_null h))

-- Where every index of a table is one in pages in which each cell of its column that is not NULL stands
-- under the id of its row, the adapter finds, for a cell, the id of its row, and its range search
-- gives the id of each row whose cell lies in the range: the indexes are those that the selection of
-- rows asks for.
pub trees-IndexAgrees : (t : Table BStarPlusIndex) → IndexedBy t → IndexAgrees bstarplus_adapter t
trees-IndexAgrees t held = record {
  found = λ column index id row x r bound stored is_cell some_value e.
      let (es, tree, cells) = held column index bound in
      found_held index es x id r tree (cells id row x stored is_cell some_value) e;
  ranged = λ column index id row x low high ids bound stored is_cell above under e.
      let (es, tree, cells) = held column index bound in
      let some_value : x ≢ Datum.null = λ is_null. absurd (null_not_above x low is_null above) in
      ranged_held index es x low high id ids tree (cells id row x stored is_cell some_value) above
        under e;
}
