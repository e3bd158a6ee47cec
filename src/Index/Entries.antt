-- ===== src/Index/Entries.antt =====
-- What an index promises, on the list of its keys and their records in order.
pub mod Change
use dbms_project_sp.Base.{
  ℕ, ◌≡◌, refl, sym, ap, ◌∙◌, subst, Bool, true, false, not, ◌&&◌, List, [], ◌∷◌, ◌++◌, Option,
  none, some, if◌then◌else◌, arith, All, Bool-cases, inl, inr, ◌⊎◌,
}
use dbms_project_sp.Index.Key.{IndexKey, IndexKeyKind}
use dbms_project_sp.Index.Order.{OfKind, below, same_key, same_key-eq, below_irrefl, below_trans}

abbrev pub Entries : Type 0
Entries = List (IndexKey × ℕ)

abbrev pub find_entry : IndexKey → Entries → Option ℕ
find_entry key [] = none
find_entry key ((k, r) ∷ es) = if same_key k key then some r else find_entry key es

-- The records of the keys from `low` to `high`.
abbrev pub records_between : IndexKey → IndexKey → Entries → List ℕ
records_between low high [] = []
records_between low high ((k, r) ∷ es) =
    if not (below k low) && not (below high k)
    then r ∷ records_between low high es
    else records_between low high es

abbrev pub Sorted : Entries → Type 0
Sorted [] = Unit
Sorted (e ∷ es) = All (λ f. below e.0 f.0 ≡ true) es × Sorted es

abbrev pub AllOfKind : IndexKeyKind → Entries → Type 0
AllOfKind kind es = All (λ e. OfKind kind e.0) es

-- Every key stands under one, and above one.
abbrev pub AllBelow : Entries → IndexKey → Type 0
AllBelow es key = All (λ e. below e.0 key ≡ true) es

abbrev pub AllAbove : IndexKey → Entries → Type 0
AllAbove key es = All (λ e. below key e.0 ≡ true) es

pub All-split {ℓ κ} :
    {A : Type ℓ} (P : A → Type κ) (xs ys : List A) → All P (xs ++ ys) → All P xs × All P ys
All-split P [] ys h = (tt, h)
All-split P (x ∷ xs) ys h = let (l, r) = All-split P xs ys h.1 in ((h.0, l), r)

pub All-imp {ℓ κ μ} :
    {A : Type ℓ} (P : A → Type κ) (Q : A → Type μ) (xs : List A)
    → ((x : A) → P x → Q x)
    → All P xs
    → All Q xs
All-imp P Q [] f h = tt
All-imp P Q (x ∷ xs) f h = (f x h.0, All-imp P Q xs f h.1)

pub Sorted-split : (xs ys : Entries) → Sorted (xs ++ ys) → Sorted xs × Sorted ys
Sorted-split [] ys h = (tt, h)
Sorted-split (x ∷ xs) ys h =
    let (l, r) = Sorted-split xs ys h.1 in
    (((All-split (λ f. below x.0 f.0 ≡ true) xs ys h.0).0, l), r)

pub not_same : (a b : IndexKey) → below a b ≡ true → (same_key a b ≡ false) × (same_key b a ≡ false)
not_same a b h = (
  elim (Bool-cases (same_key a b)) [
    | inl e ↦ cc (below_irrefl b, subst (λ x. below x b ≡ true) (same_key-eq a b e) h)
    | inr e ↦ e
  ],
  elim (Bool-cases (same_key b a)) [
    | inl e ↦ cc (below_irrefl a, subst (λ x. below a x ≡ true) (same_key-eq b a e) h)
    | inr e ↦ e
  ],
)

pub find_entry-AllBelow :
    (key : IndexKey) (xs ys : Entries)
    → AllBelow xs key
    → find_entry key (xs ++ ys) ≡ find_entry key ys
find_entry-AllBelow key [] ys h = refl
find_entry-AllBelow key ((k, r) ∷ xs) ys h =
    rw (not_same k key h.0).0 (find_entry-AllBelow key xs ys h.1)

pub find_entry-none : (key : IndexKey) (ys : Entries) → AllAbove key ys → find_entry key ys ≡ none
find_entry-none key [] h = refl
find_entry-none key ((k, r) ∷ ys) h = rw (not_same key k h.0).1 (find_entry-none key ys h.1)

pub find_entry-AllAbove :
    (key : IndexKey) (xs ys : Entries)
    → AllAbove key ys
    → find_entry key (xs ++ ys) ≡ find_entry key xs
find_entry-AllAbove key [] ys h = find_entry-none key ys h
find_entry-AllAbove key ((k, r) ∷ xs) ys h = elim (Bool-cases (same_key k key)) [
  | inl e ↦ rw e refl
  | inr e ↦ rw e (find_entry-AllAbove key xs ys h)
]

pub records_between-AllBelow :
    (low high : IndexKey) (xs ys : Entries)
    → AllBelow xs low
    → records_between low high (xs ++ ys) ≡ records_between low high ys
records_between-AllBelow low high [] ys h = refl
records_between-AllBelow low high ((k, r) ∷ xs) ys h =
    rw h.0 (records_between-AllBelow low high xs ys h.1)

pub records_between-AllAbove :
    (low high : IndexKey) (ys : Entries) → AllAbove high ys → records_between low high ys ≡ []
records_between-AllAbove low high [] h = refl
records_between-AllAbove low high ((k, r) ∷ ys) h =
    ground (arith, h.0, records_between-AllAbove low high ys h.1)

pub records_between-append :
    (low high : IndexKey) (xs ys : Entries)
    → records_between low high (xs ++ ys)
      ≡ records_between low high xs ++ records_between low high ys
records_between-append low high [] ys = refl
records_between-append low high ((k, r) ∷ xs) ys =
    elim (Bool-cases (not (below k low) && not (below high k))) [
      | inl e ↦ rw e (ap (λ l. r ∷ l) (records_between-append low high xs ys))
      | inr e ↦ rw e (records_between-append low high xs ys)
    ]
