-- ===== src/Index/Tree/Reopened.antt =====
-- The index that the constructor makes of the file that was left.
use dbms_project_sp.Base.{
  ℕ, zero, suc, ◌+◌, ◌≤◌, ◌≡◌, refl, List, [], ◌∷◌, some, length, length-append, set, Bytes, ok,
  arith, All,
}
use dbms_project_sp.Base.Vector.{drop}
use dbms_project_sp.Index.Scalar.{bytes_of}
use dbms_project_sp.Index.Key.{IndexKey, IndexKeyKind, key_matches_kind}
use dbms_project_sp.Index.Order.{OfKind}
use dbms_project_sp.Index.Disk.{
  BStarPlusIndexMetadata, DiskPageManager, metadata_bytes, metadata_size, write_metadata,
}
use dbms_project_sp.Index.Disk.Pages.{replaced}
use dbms_project_sp.Index.Disk.Reopen.{
  InFields, IsFile, IsFull, content, read_metadata-written, open_manager-content,
}
use dbms_project_sp.Index.Tree.{load_as, open_index}

length-drop : (n : ℕ) (s : Bytes) → n ≤ length s → length (drop n s) + n ≡ length s
length-drop zero s h = omega arith
length-drop (suc n) [] h = absurd (omega (arith, h))
length-drop (suc n) (x ∷ s) h = omega (arith, length-drop n s (omega (arith, h)))

length-metadata_bytes : (md : BStarPlusIndexMetadata) → length (metadata_bytes md) ≡ metadata_size
unfolding metadata_bytes bytes_of
length-metadata_bytes md = refl

All-set :
    {A : Type 0} (P : A → Type 0) (xs : List A) (i : ℕ) (v : A)
    → P v
    → All P xs
    → All P (set xs i v)
All-set P [] i v p h = h
All-set P (x ∷ xs) zero v p h = (p, h.1)
All-set P (x ∷ xs) (suc i) v p h = (h.0, All-set P xs i v p h.1)

pub replaced-IsFile :
    (id : ℕ) (page : Bytes) (d : DiskPageManager)
    → IsFull page
    → IsFile d
    → IsFile (replaced id page d)
replaced-IsFile id page d p f = record {
  header = f.header;
  pages = All-set IsFull d.pages id page p f.pages;
}

pub write_metadata-IsFile :
    (md : BStarPlusIndexMetadata) (d : DiskPageManager) → IsFile d → IsFile (write_metadata md d)
unfolding write_metadata
write_metadata-IsFile md d f = record {
  header = omega (
    arith,
    length-append {0} (metadata_bytes md) (drop metadata_size d.header),
    length-metadata_bytes md,
    length-drop metadata_size d.header (omega (arith, f.header)),
    f.header,
  );
  pages = f.pages;
}

-- Metadata of a known kind are taken from the file as they are.
load_as-known :
    (kind : IndexKeyKind) (key : IndexKey) (md : BStarPlusIndexMetadata) (d : DiskPageManager)
    → OfKind kind key
    → load_as kind kind md d ≡ ok (record { disk_manager = d; metadata = md })
unfolding key_matches_kind
load_as-known IndexKeyKind.int64 key md d p = refl
load_as-known IndexKeyKind.string key md d p = refl
load_as-known IndexKeyKind.unknown (IndexKey.int64 n) md d p = absurd (ground arith)
load_as-known IndexKeyKind.unknown (IndexKey.string s) md d p = absurd (ground arith)

-- The file of an index whose metadata were written last makes the index again.
pub open_index-content :
    (md : BStarPlusIndexMetadata) (d : DiskPageManager) (key : IndexKey)
    → OfKind md.key_kind key
    → InFields md
    → IsFile d
    → open_index (some (content (write_metadata md d))) md.key_kind
      ≡ ok (record { disk_manager = write_metadata md d; metadata = md })
unfolding open_index
open_index-content md d key p f whole =
    rw
      (
        open_manager-content (write_metadata md d) (write_metadata-IsFile md d whole),
        read_metadata-written md d f,
      )
      (load_as-known md.key_kind key md (write_metadata md d) p)
