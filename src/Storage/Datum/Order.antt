-- ===== src/Storage/Datum/Order.antt =====
-- The comparison of values is a strict total order on each type.
use dbms_project_sp.Base.{
  ◌≡◌, ◌≢◌, ◌↔◌, ◌⊎◌, inl, inr, Bool, refl, true, false, [], ◌∷◌, Bytes, bytes_lt, arith, ap, subst,
}
use dbms_project_sp.Base.Int.{ltb_ℤ}
use dbms_project_sp.Storage.Datum.{
  Datum, null, int, str, invalid, less, equal, greater, three_way, compare,
}

three_way_total :
    (b c : Bool) → (three_way b c ≡ less) ⊎ (three_way b c ≡ equal) ⊎ (three_way b c ≡ greater)
three_way_total true c = inl refl
three_way_total false true = inr (inr refl)
three_way_total false false = inr (inl refl)

pub bytes_lt_irrefl : (a : Bytes) → bytes_lt a a ≡ false
unfolding bytes_lt
bytes_lt_irrefl [] = refl
bytes_lt_irrefl (x ∷ a) = ground (arith, bytes_lt_irrefl a)

pub bytes_lt_asymm : (a b : Bytes) → bytes_lt a b ≡ true → bytes_lt b a ≡ false
unfolding bytes_lt
bytes_lt_asymm [] [] h = refl
bytes_lt_asymm [] (y ∷ b) h = refl
bytes_lt_asymm (x ∷ a) [] h = cc
bytes_lt_asymm (x ∷ a) (y ∷ b) h = ground (arith, bytes_lt_asymm a b)

pub bytes_lt_connected : (a b : Bytes) → bytes_lt a b ≡ false → bytes_lt b a ≡ false → a ≡ b
unfolding bytes_lt
bytes_lt_connected [] [] h k = refl
bytes_lt_connected [] (y ∷ b) h k = cc
bytes_lt_connected (x ∷ a) [] h k = cc
bytes_lt_connected (x ∷ a) (y ∷ b) h k = ground (arith, bytes_lt_connected a b)

pub bytes_lt_trans :
    (a b c : Bytes) → bytes_lt a b ≡ true → bytes_lt b c ≡ true → bytes_lt a c ≡ true
unfolding bytes_lt
bytes_lt_trans a [] c h k = ground arith
bytes_lt_trans a (y ∷ b) [] h k = cc
bytes_lt_trans [] (y ∷ b) (z ∷ c) h k = refl
bytes_lt_trans (x ∷ a) (y ∷ b) (z ∷ c) h k = ground (arith, bytes_lt_trans a b c)

compare_str_self : (a : Bytes) → three_way (bytes_lt a a) (bytes_lt a a) ≡ equal
compare_str_self a = rw (bytes_lt_irrefl a)

str_equal : (a b : Bytes) → three_way (bytes_lt a b) (bytes_lt b a) ≡ equal → a ≡ b
str_equal a b h = bytes_lt_connected a b (ground arith) (ground arith)

compare-equal : (a b : Datum) → compare a b ≡ equal → (a ≡ b) × (a ≢ null)
unfolding compare
compare-equal null null h = cc
compare-equal null (int n) h = cc
compare-equal null (str t) h = cc
compare-equal (int m) null h = cc
compare-equal (int m) (int n) h = (ground arith, λ e. cc e)
compare-equal (int m) (str t) h = cc
compare-equal (str s) null h = cc
compare-equal (str s) (int n) h = cc
compare-equal (str s) (str t) h = (ap str (str_equal s t h), λ e. cc e)

compare_refl : (a : Datum) → a ≢ null → compare a a ≡ equal
unfolding compare
compare_refl null h = absurd (h refl)
compare_refl (int n) h = ground arith
compare_refl (str s) h = compare_str_self s

less-greater : (a b : Datum) → (compare a b ≡ less) ↔ (compare b a ≡ greater)
unfolding compare
less-greater (int m) (int n) = ground arith
less-greater (str s) (str t) = ground (arith, bytes_lt_asymm s t, bytes_lt_asymm t s)
less-greater _ _ = ground arith

compare_trans : (a b c : Datum) → compare a b ≡ less → compare b c ≡ less → compare a c ≡ less
unfolding compare
compare_trans (int m) (int n) (int o) h k = ground arith
compare_trans (str s) (str t) (str u) h k = ground (arith, bytes_lt_trans s t u)
compare_trans _ _ _ h k = ground arith

-- The values that are compared: two of one type, of which none is NULL.
abbrev pub Comparable : Datum → Datum → Type 0
Comparable (int m) (int n) = Unit
Comparable (str s) (str t) = Unit
Comparable _ _ = ⊥

compare_total :
    (a b : Datum)
    → (Comparable a b × ((compare a b ≡ less) ⊎ (compare a b ≡ equal) ⊎ (compare a b ≡ greater)))
      ⊎ ((Comparable a b → ⊥) × (compare a b ≡ invalid))
unfolding compare
compare_total (int m) (int n) = inl (tt, three_way_total (ltb_ℤ m n) (ltb_ℤ n m))
compare_total (str s) (str t) = inl (tt, three_way_total (bytes_lt s t) (bytes_lt t s))
compare_total null b = inr (λ h. h, refl)
compare_total (int m) null = inr (λ h. h, refl)
compare_total (int m) (str t) = inr (λ h. h, refl)
compare_total (str s) null = inr (λ h. h, refl)
compare_total (str s) (int n) = inr (λ h. h, refl)

-- The comparison of values is a strict total order on the values of one type: two such values, and
-- no others, are less, equal or greater, and any others cannot be compared; the values that it
-- calls equal are the same value, and not NULL; `less` and `greater` are each other's converse;
-- and `less` is transitive.
pub compare_order :
    (a b c : Datum)
    → ((Comparable a b × ((compare a b ≡ less) ⊎ (compare a b ≡ equal) ⊎ (compare a b ≡ greater)))
        ⊎ ((Comparable a b → ⊥) × (compare a b ≡ invalid)))
      × ((compare a b ≡ equal) ↔ ((a ≡ b) × (a ≢ null)))
      × ((compare a b ≡ less) ↔ (compare b a ≡ greater))
      × (compare a b ≡ less → compare b c ≡ less → compare a c ≡ less)
compare_order a b c = (
  compare_total a b,
  (compare-equal a b, λ h. subst (λ x. compare a x ≡ equal) h.0 (compare_refl a h.1)),
  less-greater a b,
  compare_trans a b c,
)
