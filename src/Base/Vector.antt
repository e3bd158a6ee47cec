-- ===== src/Base/Vector.antt =====
-- `std::vector`: the calls that insert and erase at a position, and parts of a vector.
use Prim.Native.Nat.{ℕ, zero, suc, ◌-◌}
use mathlib.Core.Path.{◌≡◌, refl, ap}
use mathlib.Core.List.{List, [], ◌∷◌, ◌++◌}
use mathlib.Core.Option.{Option, none, some}
use dbms_project_sp.Base.Tests.{if◌then◌else◌, ◌==◌}
use dbms_project_sp.Base.Lists.{length}

module _ {ℓ} {A : Type ℓ} where
  abbrev pub take : ℕ → List A → List A
  take zero xs = []
  take (suc n) [] = []
  take (suc n) (x ∷ xs) = x ∷ take n xs

  abbrev pub drop : ℕ → List A → List A
  drop zero xs = xs
  drop (suc n) [] = []
  drop (suc n) (x ∷ xs) = drop n xs

  -- In front of the element at a position, or at the end.
  abbrev pub insert_at : ℕ → A → List A → List A
  insert_at zero a xs = a ∷ xs
  insert_at (suc i) a [] = a ∷ []
  insert_at (suc i) a (x ∷ xs) = x ∷ insert_at i a xs

  abbrev pub erase_at : ℕ → List A → List A
  erase_at i [] = []
  erase_at zero (x ∷ xs) = xs
  erase_at (suc i) (x ∷ xs) = x ∷ erase_at i xs

  -- The last element alone, and those in front of it.
  abbrev pub last_of : List A → List A
  last_of xs = drop (length xs - 1) xs

  abbrev pub but_last : List A → List A
  but_last xs = take (length xs - 1) xs

  pub take-drop : (n : ℕ) (xs : List A) → take n xs ++ drop n xs ≡ xs
  take-drop zero xs = refl
  take-drop (suc n) [] = refl
  take-drop (suc n) (x ∷ xs) = ap (λ l. x ∷ l) (take-drop n xs)

-- `std::find`: the position of a number.
unfoldable pub position_of : ℕ → List ℕ → Option ℕ
position_of n [] = none
position_of n (x ∷ xs) =
    let rest = position_of n xs in
    if x == n then some 0 else elim rest [ none ↦ none | some i ↦ some (suc i) ]
