-- ===== src/Index/Entries/Change.antt =====
-- A key put in its place among sorted entries, and one taken out of them.
use dbms_project_sp.Base.{
  ℕ, suc, length, some, ◌≡◌, refl, ap, subst, true, false, [], ◌∷◌, ◌++◌, none, if◌then◌else◌,
  arith, All, Bool-cases, inl, inr,
}
use dbms_project_sp.Index.Key.{IndexKey, IndexKeyKind}
use dbms_project_sp.Index.Order.{
  OfKind, below, same_key, same_key-eq, below_irrefl, below_trans, below_connected,
}
use dbms_project_sp.Index.Entries.{
  Entries, find_entry, Sorted, AllOfKind, AllBelow, AllAbove, All-imp, not_same, find_entry-none,
}

abbrev pub insert_entry : IndexKey → ℕ → Entries → Entries
insert_entry key r [] = (key, r) ∷ []
insert_entry key r ((k, s) ∷ es) =
    if below k key then (k, s) ∷ insert_entry key r es else (key, r) ∷ (k, s) ∷ es

abbrev pub erase_entry : IndexKey → Entries → Entries
erase_entry key [] = []
erase_entry key ((k, s) ∷ es) = if same_key k key then es else (k, s) ∷ erase_entry key es

below_asymm : (a b : IndexKey) → below a b ≡ true → below b a ≡ false
below_asymm a b h = elim (Bool-cases (below b a)) [
  | inl e ↦ cc (below_irrefl a, below_trans a b a h e)
  | inr e ↦ e
]

pub insert_entry-AllBelow :
    (key : IndexKey) (r : ℕ) (xs ys : Entries)
    → AllBelow xs key
    → insert_entry key r (xs ++ ys) ≡ xs ++ insert_entry key r ys
insert_entry-AllBelow key r [] ys h = refl
insert_entry-AllBelow key r ((k, s) ∷ xs) ys h =
    rw h.0 (ap (λ l. (k, s) ∷ l) (insert_entry-AllBelow key r xs ys h.1))

insert_entry-first :
    (key : IndexKey) (r : ℕ) (ys : Entries)
    → AllAbove key ys
    → insert_entry key r ys ≡ (key, r) ∷ ys
insert_entry-first key r [] h = refl
insert_entry-first key r ((k, s) ∷ ys) h = rw (below_asymm key k h.0) refl

pub insert_entry-AllAbove :
    (key : IndexKey) (r : ℕ) (xs ys : Entries)
    → AllAbove key ys
    → insert_entry key r (xs ++ ys) ≡ insert_entry key r xs ++ ys
insert_entry-AllAbove key r [] ys h = insert_entry-first key r ys h
insert_entry-AllAbove key r ((k, s) ∷ xs) ys h = elim (Bool-cases (below k key)) [
  | inl e ↦ rw e (ap (λ l. (k, s) ∷ l) (insert_entry-AllAbove key r xs ys h))
  | inr e ↦ rw e refl
]

-- A predicate holds of the entries with the key where it holds of both.
pub All-insert_entry :
    (P : IndexKey → Type 0) (key : IndexKey) (r : ℕ) (es : Entries)
    → P key
    → All (λ e. P e.0) es
    → All (λ e. P e.0) (insert_entry key r es)
All-insert_entry P key r [] p h = (p, tt)
All-insert_entry P key r ((k, s) ∷ es) p h = elim (Bool-cases (below k key)) [
  | inl e ↦ rw e (h.0, All-insert_entry P key r es p h.1)
  | inr e ↦ rw e (p, h)
]

pub insert_entry-Sorted :
    (kind : IndexKeyKind) (key : IndexKey) (r : ℕ) (es : Entries)
    → OfKind kind key
    → AllOfKind kind es
    → find_entry key es ≡ none
    → Sorted es
    → Sorted (insert_entry key r es)
insert_entry-Sorted kind key r [] p q f h = (tt, tt)
insert_entry-Sorted kind key r ((k, s) ∷ es) p q f h =
    let other : same_key k key ≡ false = ground (arith, f) in
    elim (Bool-cases (below k key)) [
      | inl e ↦ rw e (
        All-insert_entry (λ j. below k j ≡ true) key r es e h.0,
        insert_entry-Sorted kind key r es p q.1 (rw other at f) h.1,
      )
      | inr e ↦
          let above = below_connected kind k key q.0 p e other in
          rw e (
            (
              above,
              All-imp (λ f. below k f.0 ≡ true) (λ f. below key f.0 ≡ true) es
                  (λ f b. below_trans key k f.0 above b) h.0,
            ),
            h,
          )
    ]

pub erase_entry-AllBelow :
    (key : IndexKey) (xs ys : Entries)
    → AllBelow xs key
    → erase_entry key (xs ++ ys) ≡ xs ++ erase_entry key ys
erase_entry-AllBelow key [] ys h = refl
erase_entry-AllBelow key ((k, s) ∷ xs) ys h =
    rw (not_same k key h.0).0 (ap (λ l. (k, s) ∷ l) (erase_entry-AllBelow key xs ys h.1))

erase_entry-none : (key : IndexKey) (ys : Entries) → AllAbove key ys → erase_entry key ys ≡ ys
erase_entry-none key [] h = refl
erase_entry-none key ((k, s) ∷ ys) h =
    rw (not_same key k h.0).1 (ap (λ l. (k, s) ∷ l) (erase_entry-none key ys h.1))

pub erase_entry-AllAbove :
    (key : IndexKey) (xs ys : Entries)
    → AllAbove key ys
    → erase_entry key (xs ++ ys) ≡ erase_entry key xs ++ ys
erase_entry-AllAbove key [] ys h = erase_entry-none key ys h
erase_entry-AllAbove key ((k, s) ∷ xs) ys h = elim (Bool-cases (same_key k key)) [
  | inl e ↦ rw e refl
  | inr e ↦ rw e (ap (λ l. (k, s) ∷ l) (erase_entry-AllAbove key xs ys h))
]

pub All-erase_entry :
    (P : IndexKey → Type 0) (key : IndexKey) (es : Entries)
    → All (λ e. P e.0) es
    → All (λ e. P e.0) (erase_entry key es)
All-erase_entry P key [] h = tt
All-erase_entry P key ((k, s) ∷ es) h = elim (Bool-cases (same_key k key)) [
  | inl e ↦ rw e h.1
  | inr e ↦ rw e (h.0, All-erase_entry P key es h.1)
]

pub erase_entry-Sorted : (key : IndexKey) (es : Entries) → Sorted es → Sorted (erase_entry key es)
erase_entry-Sorted key [] h = tt
erase_entry-Sorted key ((k, s) ∷ es) h = elim (Bool-cases (same_key k key)) [
  | inl e ↦ rw e h.1
  | inr e ↦ rw e (All-erase_entry (λ j. below k j ≡ true) key es h.0, erase_entry-Sorted key es h.1)
]

pub length-insert_entry :
    (key : IndexKey) (r : ℕ) (es : Entries) → length (insert_entry key r es) ≡ suc (length es)
length-insert_entry key r [] = refl
length-insert_entry key r ((k, s) ∷ es) = elim (Bool-cases (below k key)) [
  | inl e ↦ rw e (ap suc (length-insert_entry key r es))
  | inr e ↦ rw e refl
]

pub length-erase_entry :
    (key : IndexKey) (es : Entries) {r : ℕ}
    → find_entry key es ≡ some r
    → suc (length (erase_entry key es)) ≡ length es
length-erase_entry key [] h = absurd (ground arith)
length-erase_entry key ((k, s) ∷ es) h = elim (Bool-cases (same_key k key)) [
  | inl e ↦ rw e refl
  | inr e ↦ rw e (ap suc (length-erase_entry key es (rw e at h)))
]

-- A key that is taken out is not there any more.
pub find_entry-erase_entry :
    (key : IndexKey) (es : Entries) → Sorted es → find_entry key (erase_entry key es) ≡ none
find_entry-erase_entry key [] h = refl
find_entry-erase_entry key ((k, s) ∷ es) h = elim (Bool-cases (same_key k key)) [
  | inl e ↦ rw e (
      find_entry-none key es
        (subst (λ j. All (λ f. below j f.0 ≡ true) es) (same_key-eq k key e) h.0))
  | inr e ↦ rw (e, e) (find_entry-erase_entry key es h.1)
]
