-- ===== src/Storage/Pool.antt =====
-- storage/src/string_pool.cpp: strings and the ids that stand for them.
pub mod Laws
pub mod Stream
use dbms_project_sp.Base.{
  ℕ, zero, suc, ◌+◌, ◌%◌, ◌^◌, Bool, true, false, ◌||◌, List, [], ◌∷◌, ◌++◌, Option, none, some,
  length, get_elem?, leb, ◌==◌, if◌then◌else◌, Bytes, bytes_eq,
}

-- `by_value_` and `by_id_`.
pub record Pool : Type 0 where
  pub by_value : List (Bytes × ℕ)
  pub by_id : List Bytes

-- The constructor reserves id 0.
abbrev pub empty_pool : Pool
empty_pool = record { by_value = []; by_id = [] ∷ [] }

-- `by_value_.find`
unfoldable pub find_value : Bytes → List (Bytes × ℕ) → Option ℕ
find_value s [] = none
find_value s ((t, id) ∷ m) = if bytes_eq t s then some id else find_value s m

abbrev intern_at : Option ℕ → Bytes → Pool → ℕ × Pool
intern_at (some id) s p = (id, p)
intern_at none s p =
    let id = length p.by_id % 2 ^ 32 in
    (id, record { by_value = (s, id) ∷ p.by_value; by_id = p.by_id ++ s ∷ [] })

unfoldable pub intern : Bytes → Pool → ℕ × Pool
intern s p = intern_at (find_value s p.by_value) s p

-- `none` is the exception of an invalid id; 0 is one.
unfoldable pub get : ℕ → Pool → Option Bytes
get id p = if id == 0 || leb (length p.by_id) id then none else get_elem? p.by_id id
