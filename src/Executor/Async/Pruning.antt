-- ===== src/Executor/Async/Pruning.antt =====
-- What the snapshots keep when an old one is dropped and when one is written.
use dbms_project_sp.Base.{
  ℕ, ◌≡◌, ◌∙◌, subst, true, false, ◌&&◌, [], ◌∷◌, Option, none, some, length, ltb, if◌then◌else◌,
  Bytes, bytes_eq_iff, bytes_eq_refl, arith, Bool-cases, Option-cases, inl, inr,
}
use dbms_project_sp.Base.Dict.{find, Unique, find-drop_key, drop_key-Unique}
use dbms_project_sp.Executor.Async.{
  RequestStatus, is_finished, RequestSnapshot, Snapshots, oldest_finished, replaces,
  prune_old_snapshots,
}

-- The id has a snapshot of that status.
abbrev pub Has : Snapshots → Bytes → RequestStatus → Type 0
Has m id status = (s : RequestSnapshot) × (find id m ≡ some s) × (s.status ≡ status)

abbrev Satisfies : (Bytes → RequestSnapshot → Type 0) → Option (Bytes × RequestSnapshot) → Type 0
Satisfies P none = Unit
Satisfies P (some (id, s)) = P id s

find-tail :
    (i j : Bytes) (s t : RequestSnapshot) (m : Snapshots)
    → find i m ≡ none
    → find j m ≡ some t
    → find j ((i, s) ∷ m) ≡ some t
unfolding find
find-tail i j s t m new h = ground (arith, bytes_eq_iff i j, new, h)

find-head : (i : Bytes) (s : RequestSnapshot) (m : Snapshots) → find i ((i, s) ∷ m) ≡ some s
unfolding find
find-head i s m = ground (arith, bytes_eq_refl i)

better-Satisfies :
    (P : Bytes → RequestSnapshot → Type 0) (id : Bytes) (s : RequestSnapshot)
    (best : Option (Bytes × RequestSnapshot))
    → Satisfies P best
    → (is_finished s.status ≡ true → P id s)
    → Satisfies P (if is_finished s.status && replaces s best then some (id, s) else best)
better-Satisfies P id s best b h = elim (Bool-cases (is_finished s.status)) [
  | inr e ↦ rw e b
  | inl e ↦ elim (Bool-cases (replaces s best)) [ inl r ↦ rw (e, r) (h e) | inr r ↦ rw (e, r) b ]
]

oldest_finished-Satisfies :
    (P : Bytes → RequestSnapshot → Type 0) (m : Snapshots) (best : Option (Bytes × RequestSnapshot))
    → Unique m
    → Satisfies P best
    → ((id : Bytes) (s : RequestSnapshot)
        → find id m ≡ some s
        → is_finished s.status ≡ true
        → P id s)
    → Satisfies P (oldest_finished m best)
unfolding oldest_finished
oldest_finished-Satisfies P [] best u b h = b
oldest_finished-Satisfies P ((id, s) ∷ m) best u b h =
    oldest_finished-Satisfies P m _ u.1 (better-Satisfies P id s best b (h id s (find-head id s m)))
      (λ j t f. h j t (find-tail id j s t m u.0 f))

-- The snapshot that is dropped is a finished one.
pub dropped-is_finished :
    (m : Snapshots) (id : Bytes) (s : RequestSnapshot)
    → Unique m
    → oldest_finished m none ≡ some (id, s)
    → (find id m ≡ some s) × (is_finished s.status ≡ true)
dropped-is_finished m id s u h =
    subst (Satisfies (λ j t. (find j m ≡ some t) × (is_finished t.status ≡ true))) h (
      oldest_finished-Satisfies (λ j t. (find j m ≡ some t) × (is_finished t.status ≡ true)) m none
        u tt (λ j t f e. (f, e)))

module _ (max : ℕ) (m : Snapshots) (u : Unique m) where
  pub prune_old_snapshots-Unique : Unique (prune_old_snapshots max m)
  unfolding prune_old_snapshots
  prune_old_snapshots-Unique = elim (Bool-cases (ltb (length m) max)) [
    | inl e ↦ rw e u
    | inr e ↦ elim (Option-cases (oldest_finished m none)) [
      | inl o ↦ rw (e, o) u
      | inr ((id, s), o) ↦ rw (e, o) (drop_key-Unique id m u)
    ]
  ]

  -- Nothing but a finished request is forgotten.
  pub prune_old_snapshots-kept :
      (k : Bytes) (t : RequestSnapshot)
      → find k m ≡ some t
      → is_finished t.status ≡ false
      → find k (prune_old_snapshots max m) ≡ some t
  unfolding prune_old_snapshots
  prune_old_snapshots-kept k t f n = elim (Bool-cases (ltb (length m) max)) [
    | inl e ↦ rw e f
    | inr e ↦ elim (Option-cases (oldest_finished m none)) [
      | inl o ↦ rw (e, o) f
      | inr ((id, s), o) ↦
          rw (e, o)
            (find-drop_key id k m u
              ∙ ground (arith, bytes_eq_iff id k, dropped-is_finished m id s u o, f, n))
    ]
  ]

  -- Nothing is added.
  pub prune_old_snapshots-old :
      (k : Bytes) (t : RequestSnapshot)
      → find k (prune_old_snapshots max m) ≡ some t
      → find k m ≡ some t
  unfolding prune_old_snapshots
  prune_old_snapshots-old k t f = elim (Bool-cases (ltb (length m) max)) [
    | inl e ↦ rw (e, prune_old_snapshots) at f
    | inr e ↦ elim (Option-cases (oldest_finished m none)) [
      | inl o ↦ rw (e, o, prune_old_snapshots) at f
      | inr ((id, s), o) ↦
          ground (arith, (rw (e, o, prune_old_snapshots, find-drop_key id k m u) at f))
    ]
  ]
