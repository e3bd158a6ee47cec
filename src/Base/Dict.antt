-- ===== src/Base/Dict.antt =====
-- `std::unordered_map` with strings for keys, as the list of its entries.
use mathlib.Core.Path.{◌≡◌, refl, subst, ◌∙◌}
use mathlib.Core.Logic.{inl, inr}
use mathlib.Core.Option.{Option, none, some}
use mathlib.Core.List.{List, [], ◌∷◌}
use native.Mathlib.Omega.{arith}
use dbms_project_sp.Base.Tests.{if◌then◌else◌, Bool-cases}
use dbms_project_sp.Base.Lists.{All}
use dbms_project_sp.Base.Text.{Bytes, bytes_eq, bytes_eq_iff}

module _ {ℓ} {V : Type ℓ} where
  unfoldable pub find : Bytes → List (Bytes × V) → Option V
  find k [] = none
  find k ((j, v) ∷ m) = if bytes_eq j k then some v else find k m

  -- `m[k] = v`.
  unfoldable pub put : Bytes → V → List (Bytes × V) → List (Bytes × V)
  put k v [] = (k, v) ∷ []
  put k v ((j, w) ∷ m) = let rest = put k v m in if bytes_eq j k then (k, v) ∷ m else (j, w) ∷ rest

  unfoldable pub drop_key : Bytes → List (Bytes × V) → List (Bytes × V)
  drop_key k [] = []
  drop_key k ((j, w) ∷ m) = let rest = drop_key k m in if bytes_eq j k then m else (j, w) ∷ rest

  -- No key stands twice.
  abbrev pub Unique : List (Bytes × V) → Type ℓ
  Unique [] = Unit
  Unique ((k, v) ∷ m) = (find k m ≡ none) × Unique m

  pub find-put :
      (k j : Bytes) (v : V) (m : List (Bytes × V))
      → find j (put k v m) ≡ (if bytes_eq k j then some v else find j m)
  unfolding find put
  find-put k j v [] = refl
  find-put k j v ((i, w) ∷ m) =
      ground (arith, bytes_eq_iff k j, bytes_eq_iff i k, bytes_eq_iff i j, find-put k j v m)

  pub find-drop_key :
      (k j : Bytes) (m : List (Bytes × V))
      → Unique m
      → find j (drop_key k m) ≡ (if bytes_eq k j then none else find j m)
  unfolding find drop_key
  find-drop_key k j [] u = ground arith
  find-drop_key k j ((i, w) ∷ m) u =
      ground
        (arith, bytes_eq_iff k j, bytes_eq_iff i k, bytes_eq_iff i j, u.0, find-drop_key k j m u.1)

  pub put-Unique : (k : Bytes) (v : V) (m : List (Bytes × V)) → Unique m → Unique (put k v m)
  unfolding find put
  put-Unique k v [] u = (refl, tt)
  put-Unique k v ((j, w) ∷ m) u = elim (Bool-cases (bytes_eq j k)) [
    | inl e ↦ rw e (subst (λ x. find x m ≡ none) ((bytes_eq_iff j k).0 e) u.0, u.1)
    | inr e ↦ rw e (
      find-put k j v m ∙ ground (arith, bytes_eq_iff k j, bytes_eq_iff j k, u.0),
      put-Unique k v m u.1,
    )
  ]

  pub drop_key-Unique : (k : Bytes) (m : List (Bytes × V)) → Unique m → Unique (drop_key k m)
  unfolding find drop_key
  drop_key-Unique k [] u = tt
  drop_key-Unique k ((j, w) ∷ m) u = elim (Bool-cases (bytes_eq j k)) [
    | inl e ↦ rw e u.1
    | inr e ↦ rw e (find-drop_key k j m u.1 ∙ ground (arith, u.0), drop_key-Unique k m u.1)
  ]

  -- A predicate on the values.
  abbrev pub AllValues {κ} : (V → Type κ) → List (Bytes × V) → Type κ
  AllValues P m = All (λ entry. P entry.1) m

  pub AllValues-find {κ} :
      (P : V → Type κ) (k : Bytes) (m : List (Bytes × V)) {v : V}
      → AllValues P m
      → find k m ≡ some v
      → P v
  unfolding find
  AllValues-find P k [] h e = absurd (ground arith)
  AllValues-find P k ((j, w) ∷ m) h e = elim (Bool-cases (bytes_eq j k)) [
    | inl b ↦ subst P (ground (arith, rw (b, find) at e)) h.0
    | inr b ↦ AllValues-find P k m h.1 (rw (b, find) at e)
  ]

  pub AllValues-put {κ} :
      (P : V → Type κ) (k : Bytes) (v : V) (m : List (Bytes × V))
      → P v
      → AllValues P m
      → AllValues P (put k v m)
  unfolding put
  AllValues-put P k v [] p h = (p, tt)
  AllValues-put P k v ((j, w) ∷ m) p h = elim (Bool-cases (bytes_eq j k)) [
    | inl b ↦ rw (b, put) (p, h.1)
    | inr b ↦ rw (b, put) (h.0, AllValues-put P k v m p h.1)
  ]

  pub AllValues-drop_key {κ} :
      (P : V → Type κ) (k : Bytes) (m : List (Bytes × V))
      → AllValues P m
      → AllValues P (drop_key k m)
  unfolding drop_key
  AllValues-drop_key P k [] h = h
  AllValues-drop_key P k ((j, w) ∷ m) h = elim (Bool-cases (bytes_eq j k)) [
    | inl b ↦ rw (b, drop_key) h.1
    | inr b ↦ rw (b, drop_key) (h.0, AllValues-drop_key P k m h.1)
  ]

  pub AllValues-map {κ μ} :
      (P : V → Type κ) (Q : V → Type μ) (m : List (Bytes × V))
      → ((v : V) → P v → Q v)
      → AllValues P m
      → AllValues Q m
  AllValues-map P Q [] f h = tt
  AllValues-map P Q ((j, w) ∷ m) f h = (f w h.0, AllValues-map P Q m f h.1)

  pub AllValues-both {κ μ ν} :
      (P : V → Type κ) (Q : V → Type μ) (R : V → Type ν) (m : List (Bytes × V))
      → ((v : V) → P v → Q v → R v)
      → AllValues P m
      → AllValues Q m
      → AllValues R m
  AllValues-both P Q R [] f h k = tt
  AllValues-both P Q R ((j, w) ∷ m) f h k = (f w h.0 k.0, AllValues-both P Q R m f h.1 k.1)
