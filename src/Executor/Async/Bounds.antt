-- ===== src/Executor/Async/Bounds.antt =====
-- How many snapshots are kept.
use dbms_project_sp.Base.{
  ℕ, suc, ◌<◌, ◌≤◌, ◌≡◌, ◌⊎◌, refl, ap, subst, Bool, true, false, ◌&&◌, [], ◌∷◌, Option, none, some,
  length, ltb, if◌then◌else◌, Bytes, bytes_eq, arith, Bool-cases, Option-cases, inl, inr,
}
use dbms_project_sp.Base.Dict.{find, put, drop_key, Unique}
use dbms_project_sp.Executor.Async.{
  is_finished, RequestSnapshot, Snapshots, Executor, oldest_finished, replaces, prune_old_snapshots,
  new_snapshot, submit,
}
use dbms_project_sp.Executor.Async.Pruning.{dropped-is_finished}
use dbms_project_sp.Executor.Async.Reach.{Reachable, Reachable-IsExecutor}

abbrev IsSome : Option (Bytes × RequestSnapshot) → Type 0
IsSome none = ⊥
IsSome (some entry) = Unit

-- One of the requests is finished.
abbrev pub HasFinished : Snapshots → Type 0
HasFinished m =
    (id : Bytes) × (s : RequestSnapshot) × (find id m ≡ some s) × (is_finished s.status ≡ true)

either-IsSome :
    (b : Bool) (entry : Bytes × RequestSnapshot) (best : Option (Bytes × RequestSnapshot))
    → IsSome best
    → IsSome (if b then some entry else best)
either-IsSome true entry best h = tt
either-IsSome false entry best h = h

finished-IsSome :
    (id : Bytes) (s : RequestSnapshot) (best : Option (Bytes × RequestSnapshot))
    → is_finished s.status ≡ true
    → IsSome (if is_finished s.status && replaces s best then some (id, s) else best)
finished-IsSome id s none h = rw h tt
finished-IsSome id s (some entry) h = either-IsSome _ (id, s) (some entry) tt

best-IsSome :
    (m : Snapshots) (best : Option (Bytes × RequestSnapshot))
    → IsSome best
    → IsSome (oldest_finished m best)
unfolding oldest_finished
best-IsSome [] best h = h
best-IsSome ((id, s) ∷ m) best h = best-IsSome m _ (either-IsSome _ (id, s) best h)

oldest_finished-IsSome :
    (m : Snapshots) (best : Option (Bytes × RequestSnapshot)) (id : Bytes) (s : RequestSnapshot)
    → find id m ≡ some s
    → is_finished s.status ≡ true
    → IsSome (oldest_finished m best)
unfolding oldest_finished find
oldest_finished-IsSome [] best id s f h = absurd (ground arith)
oldest_finished-IsSome ((j, t) ∷ m) best id s f h = elim (Bool-cases (bytes_eq j id)) [
  | inl e ↦
      let same : some t ≡ some s = rw (e, find) at f in
      best-IsSome m _ (finished-IsSome j t best (ground (arith, same, h)))
  | inr e ↦ oldest_finished-IsSome m _ id s (rw (e, find) at f) h
]

length-put :
    (id : Bytes) (s : RequestSnapshot) (m : Snapshots) → length (put id s m) ≤ suc (length m)
unfolding put
length-put id s [] = omega arith
length-put id s ((j, t) ∷ m) = elim (Bool-cases (bytes_eq j id)) [
  | inl e ↦ rw (e, put) (omega arith)
  | inr e ↦ rw (e, put) (omega (arith, length-put id s m))
]

length-drop_key :
    (id : Bytes) (m : Snapshots) {s : RequestSnapshot}
    → find id m ≡ some s
    → suc (length (drop_key id m)) ≡ length m
unfolding find drop_key
length-drop_key id [] f = absurd (ground arith)
length-drop_key id ((j, t) ∷ m) f = elim (Bool-cases (bytes_eq j id)) [
  | inl e ↦ rw (e, drop_key) refl
  | inr e ↦ rw (e, drop_key) (ap suc (length-drop_key id m (rw (e, find) at f)))
]

length-prune_old_snapshots :
    (max : ℕ) (m : Snapshots)
    → Unique m
    → (length m < max) ⊎ ((length m ≤ max) × HasFinished m)
    → length (prune_old_snapshots max m) < max
unfolding prune_old_snapshots
length-prune_old_snapshots max m u (inl few) =
    let below : ltb (length m) max ≡ true = ground (arith, few) in
    rw (below, prune_old_snapshots) few
length-prune_old_snapshots max m u (inr (bound, (k, t, f, h))) =
    elim (Bool-cases (ltb (length m) max)) [
      | inl e ↦ rw (e, prune_old_snapshots) (ground (arith, e))
      | inr e ↦ elim (Option-cases (oldest_finished m none)) [
        | inl o ↦ absurd (subst IsSome o (oldest_finished-IsSome m none k t f h))
        | inr ((id, s), o) ↦
            rw (e, o, prune_old_snapshots)
              (omega (arith, length-drop_key id m (dropped-is_finished m id s u o).0, bound))
      ]
    ]

-- In a reachable state with fewer snapshots than are to be stored, or with no more than that and
-- one of them of a finished request, accepting a request leaves no more snapshots than are to be stored.
pub submit-bound :
    (max : ℕ) (e : Executor) (id query client : Bytes) (now : ℕ)
    → Reachable max e
    → (length e.snapshots < e.max_stored_requests)
      ⊎ ((length e.snapshots ≤ e.max_stored_requests) × HasFinished e.snapshots)
    → length (submit id query client now e).snapshots ≤ e.max_stored_requests
unfolding submit
submit-bound max e id query client now r h =
    let pruned : Snapshots = prune_old_snapshots e.max_stored_requests e.snapshots in
    omega (
      arith,
      length-put id (new_snapshot id now) pruned,
      length-prune_old_snapshots e.max_stored_requests e.snapshots
          ((Reachable-IsExecutor max e r).unique) h,
    )
