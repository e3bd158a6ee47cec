-- ===== src/Index/Disk/Pages.antt =====
-- A page that was written is read back, and the others are as they were.
use dbms_project_sp.Base.{
  ℕ, zero, suc, ◌≡◌, refl, true, false, List, [], ◌∷◌, some, length, length-set, get_elem?, set,
  ◌==◌, Bytes, ok, >>-ok, >>=-ok, arith,
}
use dbms_project_sp.Index.Scalar.{page_size}
use dbms_project_sp.Index.Disk.{
  DiskPageManager, page_count, validate_existing_page_id, page_offset, read_page, write_page,
}

abbrev pub replaced : ℕ → Bytes → DiskPageManager → DiskPageManager
replaced id page d = record d { pages = set d.pages id page }

get_elem?-set_self {ℓ} :
    {A : Type ℓ} (xs : List A) (i : ℕ) (v : A) {w : A}
    → get_elem? xs i ≡ some w
    → get_elem? (set xs i v) i ≡ some v
get_elem?-set_self [] i v h = absurd (ground arith)
get_elem?-set_self (x ∷ xs) zero v h = refl
get_elem?-set_self (x ∷ xs) (suc i) v h = get_elem?-set_self xs i v h

get_elem?-set_other {ℓ} :
    {A : Type ℓ} (xs : List A) (i j : ℕ) (v : A)
    → (i == j) ≡ false
    → get_elem? (set xs i v) j ≡ get_elem? xs j
get_elem?-set_other [] i j v h = refl
get_elem?-set_other (x ∷ xs) zero zero v h = absurd (ground (arith, h))
get_elem?-set_other (x ∷ xs) zero (suc j) v h = refl
get_elem?-set_other (x ∷ xs) (suc i) zero v h = refl
get_elem?-set_other (x ∷ xs) (suc i) (suc j) v h = get_elem?-set_other xs i j v (ground (arith, h))

pub read_page-other :
    (id other : ℕ) (page : Bytes) (d : DiskPageManager)
    → (id == other) ≡ false
    → read_page other (replaced id page d) ≡ read_page other d
unfolding read_page
read_page-other id other page d h =
    rw (length-set {0} d.pages id page, get_elem?-set_other {0} d.pages id other page h) refl

-- What a page that can be read tells of its id.
readable :
    (id : ℕ) (d : DiskPageManager) {old : Bytes}
    → read_page id d ≡ ok old
    → (validate_existing_page_id id (page_count d) ≡ ok tt)
      × ((offset : ℕ) × (page_offset id ≡ ok offset))
      × (get_elem? d.pages id ≡ some old)
unfolding read_page
readable id d h =
    let (valid, rest) = >>-ok (validate_existing_page_id id (page_count d)) _ h in
    let (offset, is_offset, found) = >>=-ok (page_offset id) _ rest in
    (valid, (offset, is_offset), ground (arith, found))

pub read_page-written :
    (id : ℕ) (page : Bytes) (d : DiskPageManager) {old : Bytes}
    → read_page id d ≡ ok old
    → length page ≡ page_size
    → (write_page id page d ≡ ok (replaced id page d))
      × (read_page id (replaced id page d) ≡ ok page)
unfolding read_page write_page
read_page-written id page d h sized =
    let (valid, (offset, is_offset), there) = readable id d h in
    let full : (length page == page_size) ≡ true = ground (arith, sized) in
    (
      rw (valid, full, is_offset) refl,
      rw
          (
            length-set {0} d.pages id page,
            valid,
            is_offset,
            get_elem?-set_self {0} d.pages id page there,
          )
          refl,
    )
