-- ===== src/Index/Disk/Reopen.antt =====
-- The file of a manager, opened anew.
use dbms_project_sp.Base.{
  ℕ, zero, suc, ◌-◌, ◌*◌, ◌/◌, ◌%◌, ◌^◌, ◌<◌, ◌≡◌, refl, ap, subst, true, false, List, [], ◌∷◌,
  ◌++◌, some, length, length-append, ltb, ◌==◌, Bytes, ok, arith, All,
}
use dbms_project_sp.Base.Vector.{take, drop}
use dbms_project_sp.Index.Scalar.{page_size, bytes_of, read_scalar-bytes_of}
use dbms_project_sp.Index.Key.{IndexKeyKind, int64, string, unknown}
use dbms_project_sp.Index.Disk.{
  BStarPlusIndexMetadata, DiskPageManager, metadata_bytes, metadata_size, write_metadata,
  read_fields, read_metadata, pages_of, open_file, open_manager, kind_code, kind_of_code,
}

-- The numbers have the sizes of their fields.
pub record InFields (md : BStarPlusIndexMetadata) : Type 0 where
  pub root : md.root_page_id < 2 ^ 64
  pub first : md.first_leaf_page_id < 2 ^ 64
  pub height : md.height < 2 ^ 32
  pub size : md.size < 2 ^ 64

kind_of_code-kind_code : (kind : IndexKeyKind) → kind_of_code (kind_code kind) ≡ kind
kind_of_code-kind_code int64 = refl
kind_of_code-kind_code string = refl
kind_of_code-kind_code unknown = refl

kind_code-bound : (kind : IndexKeyKind) → kind_code kind < 256 ^ 1
kind_code-bound int64 = omega arith
kind_code-bound string = omega arith
kind_code-bound unknown = omega arith

bytes_in_front : BStarPlusIndexMetadata → Bytes → Bytes
bytes_in_front md rest =
    bytes_of 8 md.root_page_id
    ++ (bytes_of 8 md.first_leaf_page_id
        ++ (bytes_of 4 md.height
            ++ (bytes_of 8 md.size ++ (bytes_of 1 (kind_code md.key_kind) ++ rest))))

metadata_bytes-append :
    (md : BStarPlusIndexMetadata) (rest : Bytes)
    → metadata_bytes md ++ rest ≡ bytes_in_front md rest
unfolding metadata_bytes bytes_of bytes_in_front
metadata_bytes-append md rest = refl

-- Metadata that were written are read.
pub read_metadata-written :
    (md : BStarPlusIndexMetadata) (d : DiskPageManager)
    → InFields md
    → read_metadata (write_metadata md d) ≡ md
unfolding read_metadata write_metadata read_fields bytes_in_front
read_metadata-written md d f =
    let rest = drop metadata_size d.header in
    rw
      (
        metadata_bytes-append md rest,
        read_scalar-bytes_of 8 md.root_page_id _ (omega (arith, f.root)),
        read_scalar-bytes_of 8 md.first_leaf_page_id _ (omega (arith, f.first)),
        read_scalar-bytes_of 4 md.height _ (omega (arith, f.height)),
        read_scalar-bytes_of 8 md.size _ (omega (arith, f.size)),
        read_scalar-bytes_of 1 (kind_code md.key_kind) rest (kind_code-bound md.key_kind),
        kind_of_code-kind_code md.key_kind,
      )
      refl

abbrev pub joined : List Bytes → Bytes
joined [] = []
joined (page ∷ pages) = page ++ joined pages

-- The bytes of the file.
abbrev pub content : DiskPageManager → Bytes
content d = d.header ++ joined d.pages

abbrev pub IsFull : Bytes → Type 0
IsFull page = length page ≡ page_size

-- Every page of the file has the size of one.
pub record IsFile (d : DiskPageManager) : Type 0 where
  pub header : IsFull d.header
  pub pages : All IsFull d.pages

take-append : (a b : Bytes) (n : ℕ) → length a ≡ n → take n (a ++ b) ≡ a
take-append [] b n h = subst (λ n. take n b ≡ []) h refl
take-append (x ∷ a) b zero h = absurd (omega (arith, h))
take-append (x ∷ a) b (suc n) h = ap (λ l. x ∷ l) (take-append a b n (omega (arith, h)))

drop-append : (a b : Bytes) (n : ℕ) → length a ≡ n → drop n (a ++ b) ≡ b
drop-append [] b n h = subst (λ n. drop n b ≡ b) h refl
drop-append (x ∷ a) b zero h = absurd (omega (arith, h))
drop-append (x ∷ a) b (suc n) h = drop-append a b n (omega (arith, h))

pages_of-joined :
    (pages : List Bytes) → All IsFull pages → pages_of (length pages) (joined pages) ≡ pages
unfolding pages_of
pages_of-joined [] h = refl
pages_of-joined (page ∷ pages) h =
    rw
      (take-append page (joined pages) page_size h.0, drop-append page (joined pages) page_size h.0)
      (ap (λ l. page ∷ l) (pages_of-joined pages h.1))

length-joined :
    (pages : List Bytes) → All IsFull pages → length (joined pages) ≡ length pages * page_size
length-joined [] h = refl
length-joined (page ∷ pages) h =
    omega (arith, length-append {0} page (joined pages), length-joined pages h.1, h.0)

-- A file of whole pages is opened as it was.
pub open_manager-content : (d : DiskPageManager) → IsFile d → open_manager (some (content d)) ≡ ok d
unfolding open_manager open_file
open_manager-content d f =
    let whole = length-joined (d.header ∷ d.pages) (f.header, f.pages) in
    let count : length (content d) / page_size ≡ suc (length d.pages) = omega (arith, whole) in
    let large : ltb (length (content d)) page_size ≡ false = ground (arith, whole) in
    let even : ((length (content d) - page_size) % page_size == 0) ≡ true = ground (arith, whole) in
    rw (large, even, count, pages_of-joined (d.header ∷ d.pages) (f.header, f.pages)) refl
