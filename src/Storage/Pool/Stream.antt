-- ===== src/Storage/Pool/Stream.antt =====
-- `serialize` and `deserialize` of storage/src/string_pool.cpp. A stream is the bytes not yet read.
pub mod RoundTrip
use dbms_project_sp.Base.{
  ℕ, zero, suc, ◌%◌, ◌^◌, List, [], ◌∷◌, ◌++◌, Option, none, some, length, replicate, Bytes,
}
use dbms_project_sp.Index.Scalar.{bytes_of, number_of}
use dbms_project_sp.Storage.Pool.{Pool, empty_pool, find_value}

abbrev pub take : ℕ → Bytes → Bytes
take zero s = []
take (suc n) [] = []
take (suc n) (c ∷ s) = c ∷ take n s

-- The length of a string is cut to 32 bits, and so is what is written of it.
unfoldable pub write_string : Bytes → Bytes
write_string s = let len = length s % 2 ^ 32 in bytes_of 4 len ++ take len s

unfoldable pub write_entries : ℕ → List Bytes → Bytes
write_entries zero entries = []
write_entries (suc n) [] = []
write_entries (suc n) (s ∷ entries) = write_string s ++ write_entries n entries

abbrev pub serialize_from : List Bytes → Bytes
serialize_from [] = bytes_of 4 0
serialize_from (reserved ∷ entries) =
    let count = length entries % 2 ^ 32 in bytes_of 4 count ++ write_entries count entries

-- With 2 ^ 32 - 1 entries the loop of the source does not end.
unfoldable pub serialize : Pool → Bytes
serialize p = serialize_from p.by_id

-- `in.read` into a buffer of zeros: a stream that ends early leaves the rest of it as it is, and
-- what is read behind that is nothing.
unfoldable pub read : ℕ → Bytes → Bytes × Bytes
read zero stream = ([], stream)
read (suc n) [] = (replicate (suc n) 0, [])
read (suc n) (b ∷ stream) = let (bs, rest) = read n stream in (b ∷ bs, rest)

-- `emplace` keeps an entry that is there.
abbrev pub emplace : Option ℕ → Bytes → ℕ → List (Bytes × ℕ) → List (Bytes × ℕ)
emplace none s id m = (s, id) ∷ m
emplace (some old) s id m = m

unfoldable pub add_entry : Bytes → Pool → Pool
add_entry s p = record {
  by_value = emplace (find_value s p.by_value) s (length p.by_id % 2 ^ 32) p.by_value;
  by_id = p.by_id ++ s ∷ [];
}

unfoldable pub read_entries : ℕ → Bytes → Pool → Pool × Bytes
read_entries zero stream p = (p, stream)
read_entries (suc n) stream p =
    let (len, behind) = read 4 stream in
    let (s, rest) = read (number_of len) behind in read_entries n rest (add_entry s p)

unfoldable pub deserialize : Bytes → Pool × Bytes
deserialize stream =
    let (count, rest) = read 4 stream in read_entries (number_of count) rest empty_pool
