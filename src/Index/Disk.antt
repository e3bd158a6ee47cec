-- ===== src/Index/Disk.antt =====
-- `DiskPageManager` of index/src/DiskManager.cpp: a file of pages, of which the first holds the
-- metadata and is not counted. The calls of the file system themselves do not fail.
pub mod Reopen
pub mod Pages
use dbms_project_sp.Base.{
  ℕ, zero, suc, ◌+◌, ◌-◌, ◌*◌, ◌/◌, ◌%◌, ◌^◌, Bool, not, ◌&&◌, ◌||◌, List, [], ◌∷◌, ◌++◌, Option,
  none, some, length, get_elem?, set, replicate, if◌then◌else◌, ltb, leb, ◌==◌, Bytes, Result, ok,
  err, ◌>>=◌, ◌>>◌, guard,
}
use dbms_project_sp.Base.Vector.{take, drop}
use dbms_project_sp.Index.Scalar.{
  IndexError, invalid_argument, runtime_error, out_of_range, page_size, bytes_of, read_scalar,
}
use dbms_project_sp.Index.Key.{IndexKeyKind, int64, string, unknown}

-- `UINT64_MAX`
abbrev pub invalid_page_id : ℕ
invalid_page_id = 0xFFFFFFFFFFFFFFFF

pub record BStarPlusIndexMetadata : Type 0 where
  pub root_page_id : ℕ
  pub first_leaf_page_id : ℕ
  pub height : ℕ
  pub size : ℕ
  pub key_kind : IndexKeyKind

abbrev pub empty_metadata : BStarPlusIndexMetadata
empty_metadata = record {
  root_page_id = invalid_page_id;
  first_leaf_page_id = invalid_page_id;
  height = 0;
  size = 0;
  key_kind = unknown;
}

abbrev pub is_empty_index : BStarPlusIndexMetadata → Bool
is_empty_index md = md.root_page_id == invalid_page_id || md.height == 0

-- The page of the metadata, and the pages behind it; `_page_count` is the number of these.
pub record DiskPageManager : Type 0 where
  pub header : Bytes
  pub pages : List Bytes

abbrev pub page_count : DiskPageManager → ℕ
page_count d = length d.pages

abbrev pub zeros : ℕ → Bytes
zeros n = replicate n 0

abbrev pub kind_code : IndexKeyKind → ℕ
kind_code int64 = 0
kind_code string = 1
kind_code unknown = 2

-- A byte that stands for no kind is taken for an unknown one.
abbrev pub kind_of_code : ℕ → IndexKeyKind
kind_of_code code = if code == 0 then int64 else if code == 1 then string else unknown

abbrev pub metadata_size : ℕ
metadata_size = 29

unfoldable pub metadata_bytes : BStarPlusIndexMetadata → Bytes
metadata_bytes md =
    bytes_of 8 md.root_page_id
    ++ (bytes_of 8 md.first_leaf_page_id
        ++ (bytes_of 4 md.height ++ (bytes_of 8 md.size ++ bytes_of 1 (kind_code md.key_kind))))

unfoldable pub write_metadata : BStarPlusIndexMetadata → DiskPageManager → DiskPageManager
write_metadata md d = record d { header = metadata_bytes md ++ drop metadata_size d.header }

unfoldable pub read_fields : Bytes → Result IndexError BStarPlusIndexMetadata
read_fields page = do
  (root, after_root) ← read_scalar 8 page
  (first, after_first) ← read_scalar 8 after_root
  (height, after_height) ← read_scalar 4 after_first
  (size, after_size) ← read_scalar 8 after_height
  (code, rest) ← read_scalar 1 after_size
  ok (record {
    root_page_id = root;
    first_leaf_page_id = first;
    height = height;
    size = size;
    key_kind = kind_of_code code;
  })

abbrev or_empty : Result IndexError BStarPlusIndexMetadata → BStarPlusIndexMetadata
or_empty (ok md) = md
or_empty (err e) = empty_metadata

-- Where the file ends too early the metadata are empty.
unfoldable pub read_metadata : DiskPageManager → BStarPlusIndexMetadata
read_metadata d = or_empty (read_fields d.header)

-- The whole pages of a file.
unfoldable pub pages_of : ℕ → Bytes → List Bytes
pages_of zero content = []
pages_of (suc n) content = take page_size content ∷ pages_of n (drop page_size content)

abbrev split_file : List Bytes → Result IndexError DiskPageManager
split_file [] = err runtime_error
split_file (header ∷ pages) = ok (record { header = header; pages = pages })

-- A file that is there.
unfoldable pub open_file : Bytes → Result IndexError DiskPageManager
open_file content =
    guard (not (ltb (length content) page_size) && (length content - page_size) % page_size == 0)
      runtime_error
    >> split_file (pages_of (length content / page_size) content)

unfoldable pub new_file : Bytes
new_file = metadata_bytes empty_metadata ++ zeros (page_size - metadata_size)

-- The constructor; `none` is a file that is not there and is made.
unfoldable pub open_manager : Option Bytes → Result IndexError DiskPageManager
open_manager none = open_file new_file
open_manager (some content) = open_file content

unfoldable pub validate_existing_page_id : ℕ → ℕ → Result IndexError (Unit {0})
validate_existing_page_id id count =
    guard (not (id == invalid_page_id || leb count id)) out_of_range

-- The greatest offset is 2 ^ 63 - 1.
unfoldable pub page_offset : ℕ → Result IndexError ℕ
page_offset id = guard (leb id (2 ^ 51 - 1)) out_of_range >> ok (page_size + id * page_size)

unfoldable pub allocate_page : DiskPageManager → Result IndexError (DiskPageManager × ℕ)
allocate_page d = do
  offset ← page_offset (page_count d)
  ok (record d { pages = d.pages ++ zeros page_size ∷ [] }, page_count d)

abbrev found_page : Option Bytes → Result IndexError Bytes
found_page none = err runtime_error
found_page (some page) = ok page

unfoldable pub read_page : ℕ → DiskPageManager → Result IndexError Bytes
read_page id d = do
  validate_existing_page_id id (page_count d)
  offset ← page_offset id
  found_page (get_elem? d.pages id)

unfoldable pub write_page : ℕ → Bytes → DiskPageManager → Result IndexError DiskPageManager
write_page id page d = do
  validate_existing_page_id id (page_count d)
  guard (length page == page_size) invalid_argument
  offset ← page_offset id
  ok (record d { pages = set d.pages id page })
