-- ===== src/Index/Tree/Leaf.antt =====
-- The search in one leaf.
use dbms_project_sp.Base.{
  ℕ, suc, ◌≡◌, refl, sym, ap, Bool, true, false, List, [], ◌∷◌, ◌++◌, Option, none, some, map,
  if◌then◌else◌, ok, Bool-cases, inl, inr, All,
}
use dbms_project_sp.Index.Key.{IndexKey, IndexKeyKind}
use dbms_project_sp.Index.Order.{OfKind, below, same_key, compared, below_trans, below_connected}
use dbms_project_sp.Index.Entries.{
  Entries, find_entry, records_between, Sorted, AllOfKind, AllAbove, All-imp, All-split,
  records_between-AllAbove, not_same, find_entry-none,
}
use dbms_project_sp.Base.Vector.{insert_at, erase_at}
use dbms_project_sp.Index.Entries.Change.{insert_entry, erase_entry}
use dbms_project_sp.Index.Tree.{lower_bound, stands_at, record_at, scan_leaf}

abbrev pub is_some : Option ℕ → Bool
is_some none = false
is_some (some r) = true

abbrev pub keys_of : Entries → List IndexKey
keys_of es = map (λ e. e.0) es

abbrev pub records_of : Entries → List ℕ
records_of es = map (λ e. e.1) es

-- The position that `lower_bound` gives tells whether the key is there, and its record, and it is
-- where the key is put in or taken out.
pub record Searched (key : IndexKey) (es : Entries) : Type 0 where
  pub i : ℕ
  pub there : Bool
  pub bound : lower_bound key (keys_of es) ≡ ok i
  pub stands : stands_at i key (keys_of es) ≡ ok there
  pub gives : (if there then record_at i (records_of es) else none) ≡ find_entry key es
  pub tells : there ≡ is_some (find_entry key es)
  pub inserts :
      (r : ℕ)
      → (insert_at i key (keys_of es) ≡ keys_of (insert_entry key r es))
        × (insert_at i r (records_of es) ≡ records_of (insert_entry key r es))
  pub erases :
      there ≡ true
      → (erase_at i (keys_of es) ≡ keys_of (erase_entry key es))
        × (erase_at i (records_of es) ≡ records_of (erase_entry key es))

module _ (kind : IndexKeyKind) where
  at_first :
      (key k : IndexKey) (r : ℕ) (es : Entries)
      → OfKind kind key
      → OfKind kind k
      → Sorted ((k, r) ∷ es)
      → below k key ≡ false
      → Searched key ((k, r) ∷ es)
  unfolding lower_bound stands_at
  at_first key k r es p q sorted e =
      let (less, equal) = compared kind k key q p in
      elim (Bool-cases (same_key k key)) [
        | inl same ↦ record {
          i = 0;
          there = true;
          bound = rw (less, e) refl;
          stands = rw (equal, same) refl;
          gives = rw same refl;
          tells = rw same refl;
          inserts = λ s. (rw e refl, rw e refl);
          erases = λ h. (rw same refl, rw same refl);
        }
        | inr other ↦
            let none_behind : find_entry key es ≡ none = find_entry-none key es (
              All-imp (λ f. below k f.0 ≡ true) (λ f. below key f.0 ≡ true) es
                (λ f b. below_trans key k f.0 (below_connected kind k key q p e other) b)
                sorted.0) in
            record {
              i = 0;
              there = false;
              bound = rw (less, e) refl;
              stands = rw (equal, other) refl;
              gives = rw (other, none_behind) refl;
              tells = rw (other, none_behind) refl;
              inserts = λ s. (rw e refl, rw e refl);
              erases = λ h. cc h;
            }
      ]

  pub searched :
      (key : IndexKey) (es : Entries)
      → OfKind kind key
      → AllOfKind kind es
      → Sorted es
      → Searched key es
  unfolding lower_bound stands_at
  searched key [] p q sorted = record {
    i = 0;
    there = false;
    bound = refl;
    stands = refl;
    gives = refl;
    tells = refl;
    inserts = λ r. (refl, refl);
    erases = λ h. cc h;
  }
  searched key ((k, r) ∷ es) p q sorted = elim (Bool-cases (below k key)) [
    | inr e ↦ at_first key k r es p q.0 sorted e
    | inl e ↦
        let s = searched key es p q.1 sorted.1 in
        let other = (not_same k key e).0 in
        record {
          i = suc s.i;
          there = s.there;
          bound = rw ((compared kind k key q.0 p).0, e, s.bound) refl;
          stands = s.stands;
          gives = rw other s.gives;
          tells = rw other s.tells;
          inserts = λ n.
              let (keys, records) = s.inserts n in
              (rw e (ap (λ l. k ∷ l) keys), rw e (ap (λ l. r ∷ l) records));
          erases = λ h.
              let (keys, records) = s.erases h in
              (rw other (ap (λ l. k ∷ l) keys), rw other (ap (λ l. r ∷ l) records));
        }
  ]

  over_rest :
      (high k : IndexKey) (es : Entries)
      → below high k ≡ true
      → All (λ f. below k f.0 ≡ true) es
      → AllAbove high es
  over_rest high k es e h =
      All-imp (λ f. below k f.0 ≡ true) (λ f. below high f.0 ≡ true) es
        (λ f b. below_trans high k f.0 e b) h

  -- The scan of a leaf gives its records between two keys, and where it ends there, all that follows
  -- stands above.
  pub scanned :
      (low high : IndexKey) (es rest : Entries)
      → OfKind kind low
      → OfKind kind high
      → AllOfKind kind es
      → Sorted (es ++ rest)
      → (done : Bool) × (scan_leaf low high (keys_of es) (records_of es)
          ≡ ok (records_between low high es, done))
        × (done ≡ true → AllAbove high rest)
  unfolding scan_leaf
  scanned low high [] rest p q kinds sorted = (false, refl, λ e. cc e)
  scanned low high ((k, r) ∷ es) rest p q kinds sorted =
      let (of_es, of_rest) = All-split (λ f. below k f.0 ≡ true) es rest sorted.0 in
      let (done, scans, ends) = scanned low high es rest p q kinds.1 sorted.1 in
      let less = (compared kind k low kinds.0 p).0 in
      let more = (compared kind high k q kinds.0).0 in
      elim (Bool-cases (below k low)) [
        | inl e ↦ (done, rw (less, e) scans, ends)
        | inr e ↦ elim (Bool-cases (below high k)) [
          | inr n ↦ (done, rw (less, e, more, n, scans) refl, ends)
          | inl n ↦ (
            true,
            rw (less, e, more, n)
                (ap (λ l. ok (l, true))
                  (sym (records_between-AllAbove low high es (over_rest high k es n of_es)))),
            λ _. over_rest high k rest n of_rest,
          )
        ]
      ]
