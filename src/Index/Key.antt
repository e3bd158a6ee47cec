-- ===== src/Index/Key.antt =====
-- Keys of an index and their bytes, index/src/bstarplus_tree_index.cpp.
use dbms_project_sp.Base.{
  ℕ, zero, suc, ◌+◌, ◌-◌, ◌^◌, ◌<◌, ◌≤◌, ◌≡◌, refl, ap, subst, ◌∙◌, Bool, true, false, not, ◌||◌,
  [], ◌∷◌, ◌++◌, length, length-append, length-replicate, replicate, if◌then◌else◌, ltb, ◌==◌,
  Bytes, bytes_eq, bytes_lt, arith, Result, ok, err, ◌>>=◌, ◌>>◌, guard,
}
use dbms_project_sp.Base.Int.{ℤ, pos, negsuc, ltb_ℤ, eqb_ℤ}
use dbms_project_sp.Index.Scalar.{
  IndexError, length_error, invalid_argument, page_size, bytes_of, write_scalar, read_bytes,
  read_scalar, read_bytes-append, read_scalar-bytes_of, write_scalar-fits, length-bytes_of,
}

pub data IndexKey : Type 0 where
  int64 : ℤ → IndexKey
  string : Bytes → IndexKey

pub data IndexKeyKind : Type 0 where
  int64 string unknown : IndexKeyKind

abbrev pub string_key_size : ℕ
string_key_size = 256

unfoldable pub key_matches_kind : IndexKey → IndexKeyKind → Bool
key_matches_kind (IndexKey.int64 n) IndexKeyKind.int64 = true
key_matches_kind (IndexKey.string s) IndexKeyKind.string = true
key_matches_kind _ _ = false

unfoldable pub validate_key_kind : IndexKey → IndexKeyKind → Result IndexError (Unit {0})
validate_key_kind key kind = guard (key_matches_kind key kind) invalid_argument

unfoldable pub key_less : IndexKey → IndexKey → Result IndexError Bool
key_less (IndexKey.int64 a) (IndexKey.int64 b) = ok (ltb_ℤ a b)
key_less (IndexKey.string a) (IndexKey.string b) = ok (bytes_lt a b)
key_less _ _ = err invalid_argument

unfoldable pub keys_equal : IndexKey → IndexKey → Result IndexError Bool
keys_equal (IndexKey.int64 a) (IndexKey.int64 b) = ok (eqb_ℤ a b)
keys_equal (IndexKey.string a) (IndexKey.string b) = ok (bytes_eq a b)
keys_equal _ _ = err invalid_argument

unfoldable pub has_zero : Bytes → Bool
has_zero [] = false
has_zero (c ∷ s) = c == 0 || has_zero s

unfoldable pub validate_string_key : Bytes → Result IndexError (Unit {0})
validate_string_key s =
    guard (not (ltb string_key_size (length s))) length_error
    >> guard (not (has_zero s)) invalid_argument

unfoldable pub serialized_key_size : IndexKey → Result IndexError ℕ
serialized_key_size (IndexKey.int64 n) = ok 8
serialized_key_size (IndexKey.string s) = validate_string_key s >> ok string_key_size

-- `int64_t` in two's complement.
abbrev pub to_unsigned : ℤ → ℕ
to_unsigned (pos n) = n
to_unsigned (negsuc n) = 2 ^ 64 - suc n

abbrev pub to_signed : ℕ → ℤ
to_signed n = if ltb n (2 ^ 63) then pos n else negsuc (2 ^ 64 - suc n)

-- The zeros behind a string that fill its field.
abbrev pub padded : Bytes → Bytes
padded s = s ++ replicate (string_key_size - length s) 0

unfoldable pub write_key : IndexKey → Bytes → Result IndexError Bytes
write_key (IndexKey.int64 n) page = write_scalar 8 (to_unsigned n) page
write_key (IndexKey.string s) page =
    validate_string_key s
    >> (if ltb page_size (length page + string_key_size)
        then err length_error
        else ok (page ++ padded s))

unfoldable pub until_zero : Bytes → Bytes
until_zero [] = []
until_zero (c ∷ s) = let rest = until_zero s in if c == 0 then [] else c ∷ rest

abbrev signed_key : ℕ × Bytes → Result IndexError (IndexKey × Bytes)
signed_key (n, rest) = ok (IndexKey.int64 (to_signed n), rest)

abbrev string_key : Bytes × Bytes → Result IndexError (IndexKey × Bytes)
string_key (field, rest) = ok (IndexKey.string (until_zero field), rest)

unfoldable pub read_key : IndexKeyKind → Bytes → Result IndexError (IndexKey × Bytes)
read_key IndexKeyKind.int64 page = read_scalar 8 page >>= signed_key
read_key IndexKeyKind.string page = read_bytes string_key_size page >>= string_key
read_key IndexKeyKind.unknown page = err invalid_argument

-- The value is one of the machine's.
abbrev pub IsInt64 : ℤ → Type 0
IsInt64 (pos n) = n < 2 ^ 63
IsInt64 (negsuc n) = n < 2 ^ 63

abbrev pub KeyInRange : IndexKey → Type 0
KeyInRange (IndexKey.int64 n) = IsInt64 n
KeyInRange (IndexKey.string s) = Unit

to_signed-to_unsigned : (n : ℤ) → IsInt64 n → to_signed (to_unsigned n) ≡ n
to_signed-to_unsigned (pos n) h = ground arith
to_signed-to_unsigned (negsuc n) h = ground arith

to_unsigned-bound : (n : ℤ) → IsInt64 n → to_unsigned n < 256 ^ 8
to_unsigned-bound (pos n) h = omega (arith, h)
to_unsigned-bound (negsuc n) h = omega (arith, h)

until_zero-zeros : (k : ℕ) → until_zero (replicate k 0) ≡ []
unfolding until_zero
until_zero-zeros zero = refl
until_zero-zeros (suc k) = refl

until_zero-append : (s : Bytes) (k : ℕ) → has_zero s ≡ false → until_zero (s ++ replicate k 0) ≡ s
unfolding has_zero until_zero
until_zero-append [] k h = until_zero-zeros k
until_zero-append (c ∷ s) k h = ground (arith, until_zero-append s k)

-- What a key is written as.
unfoldable pub key_bytes : IndexKey → Bytes
key_bytes (IndexKey.int64 n) = bytes_of 8 (to_unsigned n)
key_bytes (IndexKey.string s) = padded s

pub validated :
    (s : Bytes)
    → validate_string_key s ≡ ok tt
    → (length s ≤ string_key_size) × (has_zero s ≡ false)
unfolding validate_string_key
validated s h = ground arith

padded-length : (s : Bytes) → length s ≤ string_key_size → length (padded s) ≡ string_key_size
padded-length s h = omega (
  arith,
  h,
  length-append {0} s (replicate (string_key_size - length s) 0),
  length-replicate {0} (string_key_size - length s) (zero),
)

sized :
    (r : Result IndexError (Unit {0})) (n : ℕ) {size : ℕ}
    → (r >> ok n) ≡ ok size
    → (r ≡ ok tt) × (n ≡ size)
sized (ok u) n h = (refl, ground arith)
sized (err e) n h = absurd (ground arith)

same_size : (n : ℕ) {size : ℕ} → ◌≡◌ {A = Result IndexError ℕ} (ok n) (ok size) → n ≡ size
same_size n h = ground arith

pub serialized_key_size-key_bytes :
    (key : IndexKey) {size : ℕ} → serialized_key_size key ≡ ok size → length (key_bytes key) ≡ size
unfolding serialized_key_size key_bytes
serialized_key_size-key_bytes (IndexKey.int64 n) h =
    length-bytes_of 8 (to_unsigned n) ∙ same_size 8 h
serialized_key_size-key_bytes (IndexKey.string s) h =
    let (valid, is_size) = sized (validate_string_key s) string_key_size h in
    padded-length s (validated s valid).0 ∙ is_size

pub write_key-fits :
    (key : IndexKey) (page : Bytes) {size : ℕ}
    → serialized_key_size key ≡ ok size
    → length page + size ≤ page_size
    → write_key key page ≡ ok (page ++ key_bytes key)
unfolding serialized_key_size key_bytes write_key
write_key-fits (IndexKey.int64 n) page h l =
    write_scalar-fits 8 (to_unsigned n) page (omega (arith, l, same_size 8 h))
write_key-fits (IndexKey.string s) page h l =
    let (valid, is_size) = sized (validate_string_key s) string_key_size h in
    rw valid (ground (arith, l, is_size))

pub read_key-key_bytes :
    (key : IndexKey) (kind : IndexKeyKind) (rest : Bytes) {size : ℕ}
    → KeyInRange key
    → key_matches_kind key kind ≡ true
    → serialized_key_size key ≡ ok size
    → read_key kind (key_bytes key ++ rest) ≡ ok (key, rest)
unfolding key_matches_kind serialized_key_size key_bytes read_key
read_key-key_bytes (IndexKey.int64 n) IndexKeyKind.int64 rest r m h =
    ap (λ r. r >>= signed_key) (read_scalar-bytes_of 8 (to_unsigned n) rest (to_unsigned-bound n r))
    ∙ ap (λ k. ok (IndexKey.int64 k, rest)) (to_signed-to_unsigned n r)
read_key-key_bytes (IndexKey.string s) IndexKeyKind.string rest r m h =
    let valid = validated s (sized (validate_string_key s) string_key_size h).0 in
    ap (λ r. r >>= string_key)
      (subst (λ k. read_bytes k (padded s ++ rest) ≡ ok (padded s, rest)) (padded-length s valid.0)
        (read_bytes-append (padded s) rest))
    ∙ ap (λ t. ok (IndexKey.string t, rest))
        (until_zero-append s (string_key_size - length s) valid.1)
read_key-key_bytes (IndexKey.int64 n) IndexKeyKind.string rest r m h = absurd (ground arith)
read_key-key_bytes (IndexKey.int64 n) IndexKeyKind.unknown rest r m h = absurd (ground arith)
read_key-key_bytes (IndexKey.string s) IndexKeyKind.int64 rest r m h = absurd (ground arith)
read_key-key_bytes (IndexKey.string s) IndexKeyKind.unknown rest r m h = absurd (ground arith)
