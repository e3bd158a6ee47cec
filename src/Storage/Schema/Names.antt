-- ===== src/Storage/Schema/Names.antt =====
-- The names of the columns of a schema.
use dbms_project_sp.Base.{
  ℕ, suc, ◌≡◌, ◌≢◌, refl, sym, ◌∙◌, ap, subst, Bool, true, false, List, [], ◌∷◌, ◌++◌, append_assoc,
  append-nil, Option, none, some, length, length-append, get_elem?, get_elem?-lt,
  get_elem?-append_left, get_elem?-append_last, get_elem?-append_one, if◌then◌else◌, Bytes,
  bytes_eq, bytes_eq_iff, bytes_eq_refl, arith, Bool-cases, inl, inr, Result, ok, err,
}
use dbms_project_sp.Storage.Schema.{
  ColumnDef, TableSchema, SchemaError, empty_name, duplicate_column, find_index, empty_schema,
  set_columns_from, set_columns,
}

-- A name is found at the column that has it, every column is found by its name, and no name is
-- empty.
pub record HasNames (s : TableSchema) : Type 0 where
  pub sound :
      (name : Bytes) (i : ℕ)
      → find_index name s ≡ some i
      → (c : ColumnDef) × (get_elem? s.columns i ≡ some c) × (c.name ≡ name)
  pub complete :
      (c : ColumnDef) (i : ℕ) → get_elem? s.columns i ≡ some c → find_index c.name s ≡ some i
  pub nonempty : (c : ColumnDef) (i : ℕ) → get_elem? s.columns i ≡ some c → c.name ≢ []

module _ (s : TableSchema) (w : HasNames s) (c : ColumnDef) (named : c.name ≢ [])
    (new : find_index c.name s ≡ none) where
  abbrev extended : TableSchema
  extended = record {
    columns = s.columns ++ c ∷ [];
    index_by_name = (c.name, length s.columns) ∷ s.index_by_name;
  }

  find_extended :
      (name : Bytes)
      → find_index name extended
        ≡ (if bytes_eq c.name name then some (length s.columns) else find_index name s)
  unfolding find_index
  find_extended name = refl

  extended_sound :
      (name : Bytes) (i : ℕ)
      → find_index name extended ≡ some i
      → (d : ColumnDef) × (get_elem? extended.columns i ≡ some d) × (d.name ≡ name)
  extended_sound name i h = elim (Bool-cases (bytes_eq c.name name)) [
    | inl e ↦
        let at : length s.columns ≡ i = ground (arith, find_extended name, h, e) in
        (c, rw (← at) (get_elem?-append_last s.columns c), (bytes_eq_iff c.name name).0 e)
    | inr e ↦
        let (d, f, is) = w.sound name i (ground (arith, find_extended name, h, e)) in
        (d, get_elem?-append_left s.columns (c ∷ []) i (get_elem?-lt s.columns i f) ∙ f, is)
  ]

  extended_complete :
      (d : ColumnDef) (i : ℕ)
      → get_elem? extended.columns i ≡ some d
      → find_index d.name extended ≡ some i
  extended_complete d i h = elim (get_elem?-append_one s.columns c d i h) [
    | inl e ↦
        find_extended d.name ∙ ground (arith, bytes_eq_iff c.name d.name, new, w.complete d i e)
    | inr e ↦
        subst (λ x. find_index x.name extended ≡ some i) e.1
          (find_extended c.name ∙ ground (arith, bytes_eq_refl c.name, e.0))
  ]

  extended-HasNames : HasNames extended
  extended-HasNames = record {
    sound = extended_sound;
    complete = extended_complete;
    nonempty = λ d i h. elim (get_elem?-append_one s.columns c d i h) [
      | inl e ↦ w.nonempty d i e
      | inr e ↦ subst (λ x. x.name ≢ []) e.1 named
    ];
  }

empty_schema-HasNames : HasNames empty_schema
unfolding find_index
empty_schema-HasNames = record {
  sound = λ name i h. absurd (ground arith);
  complete = λ c i h. absurd (ground arith);
  nonempty = λ c i h. absurd (ground arith);
}

round_ok :
    (b : Bool) (found : Option ℕ) (rest : Result SchemaError TableSchema) (s : TableSchema)
    → (if b then err empty_name else elim found [ some j ↦ err duplicate_column | none ↦ rest ])
      ≡ ok s
    → (b ≡ false) × (found ≡ none) × (rest ≡ ok s)
round_ok true found rest s h = absurd (ground arith)
round_ok false (some j) rest s h = absurd (ground arith)
round_ok false none rest s h = (refl, refl, h)

set_columns_from-HasNames :
    (cs : List ColumnDef) (i : ℕ) (s t : TableSchema)
    → HasNames s
    → i ≡ length s.columns
    → set_columns_from cs i s ≡ ok t
    → HasNames t × (t.columns ≡ s.columns ++ cs)
unfolding set_columns_from
set_columns_from-HasNames [] i s t w e h =
    let same : s ≡ t = ground arith in
    (subst HasNames same w, ap (λ x. x.columns) (sym same) ∙ sym (append-nil s.columns))
set_columns_from-HasNames (c ∷ cs) i s t w e h =
    let (named, new, rest) = round_ok (bytes_eq c.name []) (find_index c.name s) _ t h in
    let (names, columns) =
      set_columns_from-HasNames cs (suc i)
        (record { columns = s.columns ++ c ∷ []; index_by_name = (c.name, i) ∷ s.index_by_name }) t
        (subst
          (λ n. HasNames (record {
            columns = s.columns ++ c ∷ [];
            index_by_name = (c.name, n) ∷ s.index_by_name;
          }))
          (sym e) (extended-HasNames s w c (λ is. cc (named, (bytes_eq_iff c.name []).1 is)) new))
        (omega (arith, e, length-append s.columns (c ∷ []))) rest in
    (names, columns ∙ append_assoc s.columns (c ∷ []) cs)

-- A schema that is built from a list of columns has these columns in their order: their names are
-- not empty, each column is found by its name, and what is found by a name has that name.
pub set_columns-HasNames :
    (cs : List ColumnDef) (s : TableSchema) → set_columns cs ≡ ok s → HasNames s × (s.columns ≡ cs)
unfolding set_columns
set_columns-HasNames cs s h =
    set_columns_from-HasNames cs 0 empty_schema s empty_schema-HasNames refl h
