-- ===== src/Storage/Pool/Stream/RoundTrip.antt =====
-- A pool that is saved is loaded with its ids.
use dbms_project_sp.Base.{
  ℕ, zero, suc, ◌%◌, ◌^◌, ◌<◌, ◌≡◌, refl, sym, ap, subst, ◌∙◌, List, [], ◌∷◌, ◌++◌, none, some,
  length, length-append, append_assoc, append-nil, get_elem?, get_elem?-lt, get_elem?-append_left,
  Bytes, arith, All, Option-cases, inl, inr,
}
use dbms_project_sp.Index.Scalar.{bytes_of, number_of, length-bytes_of, number_of-bytes_of}
use dbms_project_sp.Storage.Pool.{Pool, empty_pool, find_value, get}
use dbms_project_sp.Storage.Pool.Laws.{
  IsPool, empty_pool-IsPool, HasRoom, extended, extended-IsPool,
}
use dbms_project_sp.Storage.Pool.Stream.{
  take, write_string, write_entries, serialize, serialize_from, read, add_entry, read_entries,
  deserialize,
}

take-length : (s : Bytes) → take (length s) s ≡ s
take-length [] = refl
take-length (c ∷ s) = ap (λ t. c ∷ t) (take-length s)

read-append : (bs rest : Bytes) → read (length bs) (bs ++ rest) ≡ (bs, rest)
unfolding read
read-append [] rest = refl
read-append (b ∷ bs) rest = ap (λ r. (b ∷ r.0, r.1)) (read-append bs rest)

read-bytes_of : (n : ℕ) (rest : Bytes) → read 4 (bytes_of 4 n ++ rest) ≡ (bytes_of 4 n, rest)
read-bytes_of n rest =
    subst (λ k. read k (bytes_of 4 n ++ rest) ≡ (bytes_of 4 n, rest)) (length-bytes_of 4 n)
      (read-append (bytes_of 4 n) rest)

-- Its length has 32 bits.
abbrev pub Short : Bytes → Type 0
Short s = length s < 2 ^ 32

write_string-Short : (s : Bytes) → Short s → write_string s ≡ bytes_of 4 (length s) ++ s
unfolding write_string
write_string-Short s h =
    let fits : length s % 2 ^ 32 ≡ length s = omega (arith, h) in
    ap (λ n. bytes_of 4 n ++ take n s) fits ∙ ap (λ t. bytes_of 4 (length s) ++ t) (take-length s)

read_entries-string :
    (s rest : Bytes) (n : ℕ) (p : Pool)
    → Short s
    → read_entries (suc n) (write_string s ++ rest) p ≡ read_entries n rest (add_entry s p)
unfolding read_entries
read_entries-string s rest n p h =
    ap (λ t. read_entries (suc n) (t ++ rest) p) (write_string-Short s h)
    ∙ ap (λ t. read_entries (suc n) t p) (append_assoc (bytes_of 4 (length s)) s rest)
    ∙ ap
        (λ r.
          read_entries n (read (number_of r.0) r.1).1 (add_entry (read (number_of r.0) r.1).0 p))
        (read-bytes_of (length s) (s ++ rest))
    ∙ ap (λ k. read_entries n (read k (s ++ rest)).1 (add_entry (read k (s ++ rest)).0 p))
        (number_of-bytes_of 4 (length s) (omega (arith, h)))
    ∙ ap (λ r. read_entries n r.1 (add_entry r.0 p)) (read-append s rest)

add_entry-new :
    (s : Bytes) (p : Pool) (v : IsPool p) (room : HasRoom p) (new : find_value s p.by_value ≡ none)
    → add_entry s p ≡ extended s p v room new
unfolding add_entry
add_entry-new s p v room new =
    let fits : length p.by_id % 2 ^ 32 ≡ length p.by_id = omega (arith, room) in
    rw (new, fits, add_entry) refl

-- What stands among the strings before stands there in the whole pool.
old_entry :
    (first s : Bytes) (done entries : List Bytes) (id : ℕ)
    → 0 < id
    → get_elem? ([] ∷ done) id ≡ some s
    → (get_elem? (first ∷ (done ++ entries)) id ≡ some s) × (id < suc (length done))
old_entry first s done entries zero l e = absurd (omega (arith, l))
old_entry first s done entries (suc k) l e =
    let below : k < length done = get_elem?-lt done k e in
    (get_elem?-append_left done entries k below ∙ e, omega (arith, below))

next_entry :
    (first s : Bytes) (done entries : List Bytes)
    → get_elem? (first ∷ (done ++ s ∷ entries)) (suc (length done)) ≡ some s
next_entry first s [] entries = refl
next_entry first s (t ∷ done) entries = next_entry first s done entries

module _ (p : Pool) (v : IsPool p) (room : HasRoom p) (first : Bytes) where
  -- What is loaded so far, and the entries still to come, are the entries of the saved pool.
  record Loaded (done entries : List Bytes) (q : Pool) : Type 0 where
    saved : p.by_id ≡ first ∷ (done ++ entries)
    loaded : q.by_id ≡ [] ∷ done
    valid : IsPool q

  -- No string stands twice in the saved pool.
  twice :
      (done entries : List Bytes) (s : Bytes) (q : Pool)
      → Loaded done (s ∷ entries) q
      → (id : ℕ) → find_value s q.by_value ≡ some id
      → ⊥
  twice done entries s q l id e =
      let (positive, at) = l.valid.to_id s id e in
      let (in_pool, below) =
        old_entry first s done (s ∷ entries) id positive
          (ap (λ t. get_elem? t id) (sym l.loaded) ∙ at) in
      let one = v.to_value s id positive (ap (λ t. get_elem? t id) l.saved ∙ in_pool) in
      let other =
        v.to_value s (suc (length done)) (omega arith)
          (ap (λ t. get_elem? t (suc (length done))) l.saved ∙ next_entry first s done entries) in
      ground (arith, one, other, below)

  next_entry-new :
      (done entries : List Bytes) (s : Bytes) (q : Pool)
      → Loaded done (s ∷ entries) q
      → find_value s q.by_value ≡ none
  next_entry-new done entries s q l = elim (Option-cases (find_value s q.by_value)) [
    | inl e ↦ e
    | inr (id, e) ↦ absurd (twice done entries s q l id e)
  ]

  next-Loaded :
      (done entries : List Bytes) (s : Bytes) (q : Pool)
      → Loaded done (s ∷ entries) q
      → Loaded (done ++ s ∷ []) entries (add_entry s q)
  unfolding add_entry
  next-Loaded done entries s q l =
      let new = next_entry-new done entries s q l in
      let has_room : HasRoom q = omega (
        arith,
        room,
        ap length l.saved,
        ap length l.loaded,
        length-append {0} done (s ∷ entries),
      ) in
      record {
        saved = l.saved ∙ ap (λ t. first ∷ t) (sym (append_assoc done (s ∷ []) entries));
        loaded = ap (λ t. t ++ s ∷ []) l.loaded;
        valid =
            subst IsPool (sym (add_entry-new s q l.valid has_room new))
              (extended-IsPool s q l.valid has_room new);
      }

  read_entries-Loaded :
      (done entries : List Bytes) (q : Pool) (rest : Bytes)
      → Loaded done entries q
      → All Short entries
      → (r : Pool) × (read_entries
            (length entries)
            (write_entries (length entries) entries ++ rest)
            q
          ≡ (r, rest))
        × Loaded (done ++ entries) [] r
  unfolding read_entries write_entries
  read_entries-Loaded done [] q rest l h = (
    q,
    refl,
    record {
      saved = l.saved ∙ ap (λ t. first ∷ t) (sym (append-nil (done ++ [])));
      loaded = l.loaded ∙ ap (λ t. [] ∷ t) (sym (append-nil done));
      valid = l.valid;
    },
  )
  read_entries-Loaded done (s ∷ entries) q rest l h =
      let next = next-Loaded done entries s q l in
      let (r, reads, at) =
        read_entries-Loaded (done ++ s ∷ []) entries (add_entry s q) rest next h.1 in
      (
        r,
        ap (λ t. read_entries (suc (length entries)) t q)
              (append_assoc (write_string s) (write_entries (length entries) entries) rest)
            ∙ read_entries-string s (write_entries (length entries) entries ++ rest)
                (length entries) q h.0
            ∙ reads,
        subst (λ t. Loaded t [] r) (append_assoc done (s ∷ []) entries) at,
      )

-- The pool that was loaded gives every id the string of the pool that was saved, and what stands
-- behind it in the stream is left.
abbrev pub Restored : Pool → Bytes → Pool × Bytes → Type 0
Restored p rest (q, behind) = IsPool q × ((id : ℕ) → get id q ≡ get id p) × (behind ≡ rest)

get-same :
    (p q : Pool) (first : Bytes) (entries : List Bytes) (id : ℕ)
    → p.by_id ≡ first ∷ entries
    → q.by_id ≡ [] ∷ entries
    → get id q ≡ get id p
unfolding get
get-same p q first entries zero h k = refl
get-same p q first entries (suc id) h k = rw (h, k, get) refl

deserialize-entries :
    (entries : List Bytes) (rest : Bytes)
    → length entries < 2 ^ 32
    → deserialize (serialize_from ([] ∷ entries) ++ rest)
      ≡ read_entries (length entries) (write_entries (length entries) entries ++ rest) empty_pool
unfolding deserialize
deserialize-entries entries rest h =
    let n : ℕ = length entries in
    let fits : n % 2 ^ 32 ≡ n = omega (arith, h) in
    ap (λ k. deserialize ((bytes_of 4 k ++ write_entries k entries) ++ rest)) fits
    ∙ ap deserialize (append_assoc (bytes_of 4 n) (write_entries n entries) rest)
    ∙ ap (λ r. read_entries (number_of r.0) r.1 empty_pool)
        (read-bytes_of n (write_entries n entries ++ rest))
    ∙ ap (λ k. read_entries k (write_entries n entries ++ rest) empty_pool)
        (number_of-bytes_of 4 n (omega (arith, h)))

restored :
    (p : Pool) (rest : Bytes) (ids : List Bytes)
    → p.by_id ≡ ids
    → IsPool p
    → HasRoom p
    → All Short ids
    → Restored p rest (deserialize (serialize_from ids ++ rest))
restored p rest [] at v room h = absurd (omega (arith, v.nonempty, ap length at))
restored p rest (first ∷ entries) at v room h =
    let (q, reads, l) =
      read_entries-Loaded p v room first [] entries empty_pool rest
        (record { saved = at; loaded = refl; valid = empty_pool-IsPool }) h.1 in
    let few : length entries < 2 ^ 32 = omega (arith, room, ap length at) in
    subst (Restored p rest) (sym (deserialize-entries entries rest few ∙ reads))
      (l.valid, (λ id. get-same p q first entries id at l.loaded), refl)

-- A well-formed pool with room for one more id, whose strings have lengths of 32 bits, is saved to
-- a stream from which a well-formed pool is loaded that gives each id the same string, and none
-- where there was none; what stands behind it in the stream is left to be read.
pub deserialize-Restored :
    (p : Pool) (rest : Bytes)
    → IsPool p
    → HasRoom p
    → All Short p.by_id
    → Restored p rest (deserialize (serialize p ++ rest))
unfolding serialize
deserialize-Restored p rest = restored p rest p.by_id refl
