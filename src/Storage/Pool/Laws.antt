-- ===== src/Storage/Pool/Laws.antt =====
-- A string pool gives one id to one string, for good.
use dbms_project_sp.Base.{
  ℕ, ◌^◌, ◌<◌, ◌≡◌, ◌↔◌, inl, inr, refl, sym, ◌∙◌, ap, true, List, [], ◌∷◌, ◌++◌, none, some,
  length, length-append, get_elem?, get_elem?-lt, get_elem?-append_left, get_elem?-append_last,
  get_elem?-append_one, if◌then◌else◌, arith, Bool-cases, Option-cases, Bytes, bytes_eq,
  bytes_eq_iff,
}
use dbms_project_sp.Storage.Pool.{Pool, empty_pool, find_value, intern, intern_at, get}

-- The two members are each other's inverse, and id 0 is reserved.
pub record IsPool (p : Pool) : Type 0 where
  pub nonempty : 0 < length p.by_id
  pub to_id :
      (s : Bytes) (id : ℕ)
      → find_value s p.by_value ≡ some id
      → (0 < id) × (get_elem? p.by_id id ≡ some s)
  pub to_value :
      (s : Bytes) (id : ℕ)
      → 0 < id
      → get_elem? p.by_id id ≡ some s
      → find_value s p.by_value ≡ some id

new_id-unused :
    (s : Bytes) (id : ℕ)
    → 0 < id
    → get_elem? empty_pool.by_id id ≡ some s
    → find_value s empty_pool.by_value ≡ some id
new_id-unused s id l e = ground arith

pub empty_pool-IsPool : IsPool empty_pool
unfolding find_value
empty_pool-IsPool = record {
  nonempty = omega arith;
  to_id = λ s id e. cc e;
  to_value = new_id-unused;
}

-- There is room for one more id in `uint32_t`.
abbrev pub HasRoom : Pool → Type 0
HasRoom p = length p.by_id < 2 ^ 32

find_value_cons :
    (s t : Bytes) (id : ℕ) (m : List (Bytes × ℕ))
    → find_value s ((t, id) ∷ m) ≡ (if bytes_eq t s then some id else find_value s m)
unfolding find_value
find_value_cons s t id m = refl

module _ (s : Bytes) (p : Pool) (v : IsPool p) (room : HasRoom p)
    (new : find_value s p.by_value ≡ none) where
  abbrev pub extended : Pool
  extended = record { by_value = (s, length p.by_id) ∷ p.by_value; by_id = p.by_id ++ s ∷ [] }

  intern_new : intern s p ≡ (length p.by_id, extended)
  unfolding intern
  intern_new = ground (arith, new, room)

  to_id_new :
      (t : Bytes) (id : ℕ)
      → bytes_eq s t ≡ true
      → some (length p.by_id) ≡ some id
      → (0 < id) × (get_elem? extended.by_id id ≡ some t)
  to_id_new t id e h =
      let at_id : length p.by_id ≡ id = ground arith in
      (
        omega (arith, v.nonempty),
        rw (← at_id) (get_elem?-append_last p.by_id s ∙ ap some ((bytes_eq_iff s t).0 e)),
      )

  to_id_old :
      (t : Bytes) (id : ℕ)
      → find_value t p.by_value ≡ some id
      → (0 < id) × (get_elem? extended.by_id id ≡ some t)
  to_id_old t id h =
      let (l, e) = v.to_id t id h in
      (l, get_elem?-append_left p.by_id (s ∷ []) id (get_elem?-lt p.by_id id e) ∙ e)

  extended-to_id :
      (t : Bytes) (id : ℕ)
      → find_value t extended.by_value ≡ some id
      → (0 < id) × (get_elem? extended.by_id id ≡ some t)
  extended-to_id t id h = elim (Bool-cases (bytes_eq s t)) [
    | inl e ↦ to_id_new t id e (rw (find_value_cons t s (length p.by_id) p.by_value, e) at h)
    | inr e ↦ to_id_old t id (rw (find_value_cons t s (length p.by_id) p.by_value, e) at h)
  ]

  extended-to_value :
      (t : Bytes) (id : ℕ)
      → 0 < id
      → get_elem? extended.by_id id ≡ some t
      → find_value t extended.by_value ≡ some id
  extended-to_value t id l h = elim (get_elem?-append_one p.by_id s t id h) [
    | inl e ↦ ground (
      arith,
      find_value_cons t s (length p.by_id) p.by_value,
      new,
      v.to_value t id l e,
      bytes_eq_iff s t,
    )
    | inr e ↦
        ground (arith, find_value_cons t s (length p.by_id) p.by_value, (bytes_eq_iff s t).1 e.1)
  ]

  pub extended-IsPool : IsPool extended
  extended-IsPool = record {
    nonempty = omega (arith, length-append {0} p.by_id (s ∷ []));
    to_id = extended-to_id;
    to_value = extended-to_value;
  }

  new_id : (0 < (intern s p).0) × (get_elem? (intern s p).1.by_id (intern s p).0 ≡ some s)
  new_id = rw intern_new (v.nonempty, get_elem?-append_last p.by_id s)

some-injective' {ℓ} : {A : Type ℓ} {a b : A} → some a ≡ some b → a ≡ b
some-injective' h = ground arith

pub get_of :
    (p : Pool) (id : ℕ) (s : Bytes) → 0 < id → get_elem? p.by_id id ≡ some s → get id p ≡ some s
unfolding get
get_of p id s l e = ground (arith, get_elem?-lt p.by_id id e)

pub of_get :
    (p : Pool) (id : ℕ) (s : Bytes) → get id p ≡ some s → (0 < id) × (get_elem? p.by_id id ≡ some s)
unfolding get
of_get p id s h = ground arith

-- An id that was given before still stands for its string.
abbrev pub Extends : Pool → Pool → Type 0
Extends p q = (id : ℕ) (s : Bytes) → get id p ≡ some s → get id q ≡ some s

-- The id stands for the string in a well-formed pool, and every id given before keeps its string.
abbrev pub Interned : Bytes → Pool → ℕ × Pool → Type 0
Interned s p (id, q) = IsPool q × (get id q ≡ some s) × Extends p q

module _ (s : Bytes) (p : Pool) (v : IsPool p) (room : HasRoom p) where
  intern_known : (id : ℕ) → find_value s p.by_value ≡ some id → Interned s p (intern s p)
  unfolding intern
  intern_known id e =
      let (l, at_id) = v.to_id s id e in rw (e, intern_at) (v, get_of p id s l at_id, λ j t h. h)

  extended-Extends : (new : find_value s p.by_value ≡ none) → Extends p (extended s p v room new)
  extended-Extends new id t h =
      let (l, e) = of_get p id t h in
      get_of (extended s p v room new) id t l
        (get_elem?-append_left p.by_id (s ∷ []) id (get_elem?-lt p.by_id id e) ∙ e)

  intern_fresh : find_value s p.by_value ≡ none → Interned s p (intern s p)
  intern_fresh e = rw (intern_new s p v room e) (
    extended-IsPool s p v room e,
    get_of (extended s p v room e) (length p.by_id) s v.nonempty (get_elem?-append_last p.by_id s),
    extended-Extends e,
  )

  -- Interning a string in a well-formed pool with room for one more id gives an id that stands for
  -- the string; every id given before keeps its string, and the pool stays well formed.
  pub intern_lem : Interned s p (intern s p)
  intern_lem = elim (Option-cases (find_value s p.by_value)) [
    | inl e ↦ intern_fresh e
    | inr (id, e) ↦ intern_known id e
  ]

-- Two ids of a well-formed pool are the same exactly where their strings are.
pub get-injective :
    (p : Pool) (i j : ℕ) (s t : Bytes)
    → IsPool p
    → get i p ≡ some s
    → get j p ≡ some t
    → (i ≡ j) ↔ (s ≡ t)
get-injective p i j s t v h k =
    let (l, e) = of_get p i s h in
    let (m, f) = of_get p j t k in
    (
      λ same. some-injective' (sym h ∙ ap (λ n. get n p) same ∙ k),
      λ same.
          some-injective' (
            sym (v.to_value s i l e) ∙ ap (λ n. find_value n p.by_value) same ∙ v.to_value t j m f),
    )
