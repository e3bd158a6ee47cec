-- ===== src/Index/Order.antt =====
-- The order of the keys of one kind, as a Boolean test and its laws.
use dbms_project_sp.Base.{
  ◌≡◌, refl, sym, subst, ap, Bool, true, false, Bytes, bytes_eq, bytes_eq_iff, bytes_eq_refl,
  bytes_lt, arith, Bool-cases, inl, inr, ok,
}
use dbms_project_sp.Base.Int.{ltb_ℤ, eqb_ℤ, eq_of_parts}
use dbms_project_sp.Storage.Datum.Order.{bytes_lt_irrefl, bytes_lt_connected, bytes_lt_trans}
use dbms_project_sp.Index.Key.{IndexKey, IndexKeyKind, key_matches_kind, key_less, keys_equal}

abbrev pub OfKind : IndexKeyKind → IndexKey → Type 0
OfKind kind key = key_matches_kind key kind ≡ true

abbrev pub below : IndexKey → IndexKey → Bool
below (IndexKey.int64 a) (IndexKey.int64 b) = ltb_ℤ a b
below (IndexKey.string a) (IndexKey.string b) = bytes_lt a b
below _ _ = false

abbrev pub same_key : IndexKey → IndexKey → Bool
same_key (IndexKey.int64 a) (IndexKey.int64 b) = eqb_ℤ a b
same_key (IndexKey.string a) (IndexKey.string b) = bytes_eq a b
same_key _ _ = false

-- Keys of one kind are compared without an exception.
pub compared :
    (kind : IndexKeyKind) (a b : IndexKey)
    → OfKind kind a
    → OfKind kind b
    → (key_less a b ≡ ok (below a b)) × (keys_equal a b ≡ ok (same_key a b))
unfolding key_matches_kind key_less keys_equal
compared kind (IndexKey.int64 a) (IndexKey.int64 b) h k = (refl, refl)
compared kind (IndexKey.string a) (IndexKey.string b) h k = (refl, refl)
compared IndexKeyKind.int64 (IndexKey.int64 a) (IndexKey.string b) h k = absurd (ground arith)
compared IndexKeyKind.string (IndexKey.int64 a) (IndexKey.string b) h k = absurd (ground arith)
compared IndexKeyKind.unknown (IndexKey.int64 a) (IndexKey.string b) h k = absurd (ground arith)
compared IndexKeyKind.int64 (IndexKey.string a) (IndexKey.int64 b) h k = absurd (ground arith)
compared IndexKeyKind.string (IndexKey.string a) (IndexKey.int64 b) h k = absurd (ground arith)
compared IndexKeyKind.unknown (IndexKey.string a) (IndexKey.int64 b) h k = absurd (ground arith)

pub same_key-eq : (a b : IndexKey) → same_key a b ≡ true → a ≡ b
same_key-eq (IndexKey.int64 a) (IndexKey.int64 b) h =
    ap IndexKey.int64 (eq_of_parts a b (ground (arith, h)))
same_key-eq (IndexKey.string a) (IndexKey.string b) h = ap IndexKey.string ((bytes_eq_iff a b).0 h)
same_key-eq (IndexKey.int64 a) (IndexKey.string b) h = absurd (ground arith)
same_key-eq (IndexKey.string a) (IndexKey.int64 b) h = absurd (ground arith)

pub same_key_self : (a : IndexKey) → same_key a a ≡ true
same_key_self (IndexKey.int64 a) = ground arith
same_key_self (IndexKey.string a) = bytes_eq_refl a

pub below_irrefl : (a : IndexKey) → below a a ≡ false
below_irrefl (IndexKey.int64 a) = ground arith
below_irrefl (IndexKey.string a) = bytes_lt_irrefl a

pub below_trans : (a b c : IndexKey) → below a b ≡ true → below b c ≡ true → below a c ≡ true
below_trans (IndexKey.int64 a) (IndexKey.int64 b) (IndexKey.int64 c) h k = ground (arith, h, k)
below_trans (IndexKey.string a) (IndexKey.string b) (IndexKey.string c) h k =
    bytes_lt_trans a b c h k
below_trans (IndexKey.int64 a) (IndexKey.string b) c h k = absurd (ground arith)
below_trans (IndexKey.string a) (IndexKey.int64 b) c h k = absurd (ground arith)
below_trans (IndexKey.int64 a) (IndexKey.int64 b) (IndexKey.string c) h k = absurd (ground arith)
below_trans (IndexKey.string a) (IndexKey.string b) (IndexKey.int64 c) h k = absurd (ground arith)

not_below_bytes : (a b c : Bytes) → bytes_lt a b ≡ true → bytes_lt c b ≡ false → bytes_lt a c ≡ true
not_below_bytes a b c h k = elim (Bool-cases (bytes_lt b c)) [
  | inl e ↦ bytes_lt_trans a b c h e
  | inr e ↦ subst (λ x. bytes_lt a x ≡ true) (sym (bytes_lt_connected c b k e)) h
]

-- `a < b` and `b ≤ c`, the keys being of one kind.
pub below-not_below :
    (kind : IndexKeyKind) (a b c : IndexKey)
    → OfKind kind b
    → OfKind kind c
    → below a b ≡ true
    → below c b ≡ false
    → below a c ≡ true
unfolding key_matches_kind
below-not_below kind (IndexKey.int64 a) (IndexKey.int64 b) (IndexKey.int64 c) p q h k =
    ground (arith, h, k)
below-not_below kind (IndexKey.string a) (IndexKey.string b) (IndexKey.string c) p q h k =
    not_below_bytes a b c h k
below-not_below kind (IndexKey.int64 a) (IndexKey.string b) c p q h k = absurd (ground arith)
below-not_below kind (IndexKey.string a) (IndexKey.int64 b) c p q h k = absurd (ground arith)
below-not_below IndexKeyKind.int64 (IndexKey.int64 a) (IndexKey.int64 b) (IndexKey.string c) p q h
      k =
    absurd (ground arith)
below-not_below IndexKeyKind.string (IndexKey.int64 a) (IndexKey.int64 b) (IndexKey.string c) p q h
      k =
    absurd (ground arith)
below-not_below IndexKeyKind.unknown (IndexKey.int64 a) (IndexKey.int64 b) (IndexKey.string c) p q h
      k =
    absurd (ground arith)
below-not_below IndexKeyKind.int64 (IndexKey.string a) (IndexKey.string b) (IndexKey.int64 c) p q h
      k =
    absurd (ground arith)
below-not_below IndexKeyKind.string (IndexKey.string a) (IndexKey.string b) (IndexKey.int64 c) p q h
      k =
    absurd (ground arith)
below-not_below IndexKeyKind.unknown (IndexKey.string a) (IndexKey.string b) (IndexKey.int64 c) p q
      h k =
    absurd (ground arith)

bytes_connected : (a b : Bytes) → bytes_lt a b ≡ false → bytes_eq a b ≡ false → bytes_lt b a ≡ true
bytes_connected a b h n = elim (Bool-cases (bytes_lt b a)) [
  | inl e ↦ e
  | inr e ↦ cc (n, (bytes_eq_iff a b).1 (bytes_lt_connected a b h e))
]

-- Two keys of one kind are the same, or one is below the other.
pub below_connected :
    (kind : IndexKeyKind) (a b : IndexKey)
    → OfKind kind a
    → OfKind kind b
    → below a b ≡ false
    → same_key a b ≡ false
    → below b a ≡ true
unfolding key_matches_kind
below_connected kind (IndexKey.int64 a) (IndexKey.int64 b) p q h n = ground (arith, h, n)
below_connected kind (IndexKey.string a) (IndexKey.string b) p q h n = bytes_connected a b h n
below_connected IndexKeyKind.int64 (IndexKey.int64 a) (IndexKey.string b) p q h n =
    absurd (ground arith)
below_connected IndexKeyKind.string (IndexKey.int64 a) (IndexKey.string b) p q h n =
    absurd (ground arith)
below_connected IndexKeyKind.unknown (IndexKey.int64 a) (IndexKey.string b) p q h n =
    absurd (ground arith)
below_connected IndexKeyKind.int64 (IndexKey.string a) (IndexKey.int64 b) p q h n =
    absurd (ground arith)
below_connected IndexKeyKind.string (IndexKey.string a) (IndexKey.int64 b) p q h n =
    absurd (ground arith)
below_connected IndexKeyKind.unknown (IndexKey.string a) (IndexKey.int64 b) p q h n =
    absurd (ground arith)
