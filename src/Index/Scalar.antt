-- ===== src/Index/Scalar.antt =====
-- `write_scalar` and `read_scalar` of index/src/bstarplus_tree_index.cpp on a machine that keeps the
-- low byte first. A page that is written is the bytes before the offset; the rest of it is zero. A
-- page that is read is the bytes from the offset on.
use dbms_project_sp.Base.{
  ℕ, zero, suc, ◌+◌, ◌*◌, ◌/◌, ◌%◌, ◌^◌, ◌<◌, ◌≤◌, ◌≡◌, refl, ap, subst, ◌∙◌, [], ◌∷◌, ◌++◌, length,
  if◌then◌else◌, ltb, Bytes, arith, Result, ok, err,
}

-- The classes of exceptions; a caller tells `length_error` from the others. `endless` is a loop
-- through pages that does not end.
pub data IndexError : Type 0 where
  length_error invalid_argument runtime_error logic_error out_of_range endless : IndexError

abbrev pub page_size : ℕ
page_size = 4096

unfoldable pub bytes_of : ℕ → ℕ → Bytes
bytes_of zero n = []
bytes_of (suc size) n = (n % 256) ∷ bytes_of size (n / 256)

unfoldable pub number_of : Bytes → ℕ
number_of [] = 0
number_of (b ∷ bs) = b + 256 * number_of bs

unfoldable pub write_scalar : ℕ → ℕ → Bytes → Result IndexError Bytes
write_scalar size n page =
    if ltb page_size (length page + size) then err length_error else ok (page ++ bytes_of size n)

abbrev pub one_more : ℕ → Result IndexError (Bytes × Bytes) → Result IndexError (Bytes × Bytes)
one_more b (ok (bs, rest)) = ok (b ∷ bs, rest)
one_more b (err e) = err e

-- The bytes of a field, and those behind it.
unfoldable pub read_bytes : ℕ → Bytes → Result IndexError (Bytes × Bytes)
read_bytes zero page = ok ([], page)
read_bytes (suc size) [] = err runtime_error
read_bytes (suc size) (b ∷ page) = one_more b (read_bytes size page)

abbrev as_number : Result IndexError (Bytes × Bytes) → Result IndexError (ℕ × Bytes)
as_number (ok (bs, rest)) = ok (number_of bs, rest)
as_number (err e) = err e

unfoldable pub read_scalar : ℕ → Bytes → Result IndexError (ℕ × Bytes)
read_scalar size page = as_number (read_bytes size page)

pub length-bytes_of : (size n : ℕ) → length (bytes_of size n) ≡ size
unfolding bytes_of
length-bytes_of zero n = refl
length-bytes_of (suc size) n = ap suc (length-bytes_of size (n / 256))

pub number_of-bytes_of : (size n : ℕ) → n < 256 ^ size → number_of (bytes_of size n) ≡ n
unfolding bytes_of number_of
number_of-bytes_of zero n h = omega (arith, h)
number_of-bytes_of (suc size) n h =
    omega (arith, number_of-bytes_of size (n / 256) (omega (arith, h)))

pub read_bytes-append : (bs rest : Bytes) → read_bytes (length bs) (bs ++ rest) ≡ ok (bs, rest)
unfolding read_bytes
read_bytes-append [] rest = refl
read_bytes-append (b ∷ bs) rest = ap (one_more b) (read_bytes-append bs rest)

-- A number that has its bytes is read back.
pub read_scalar-bytes_of :
    (size n : ℕ) (rest : Bytes)
    → n < 256 ^ size
    → read_scalar size (bytes_of size n ++ rest) ≡ ok (n, rest)
unfolding read_scalar
read_scalar-bytes_of size n rest h =
    ap as_number (
      subst (λ k. read_bytes k (bytes_of size n ++ rest) ≡ ok (bytes_of size n, rest))
        (length-bytes_of size n) (read_bytes-append (bytes_of size n) rest))
    ∙ ap (λ m. ok (m, rest)) (number_of-bytes_of size n h)

pub write_scalar-fits :
    (size n : ℕ) (page : Bytes)
    → length page + size ≤ page_size
    → write_scalar size n page ≡ ok (page ++ bytes_of size n)
unfolding write_scalar
write_scalar-fits size n page h = ground (arith, h)
