-- ===== src/Executor/Classifier.antt =====
-- `classifyExecutionMode` of executor/src/query_classifier.cpp, with include/string_utils.h.
use dbms_project_sp.Base.{
  ℕ, ◌≡◌, refl, sym, ◌∙◌, ap, Bool, true, false, ◌&&◌, ◌||◌, [], ◌∷◌, ◌++◌, map, if◌then◌else◌,
  Bytes, codes, bytes_eq, is_space, is_alpha, to_upper, arith, All, Bool-cases, inl, inr,
}

pub data ExecutionMode : Type 0 where
  sync async : ExecutionMode

unfoldable pub drop_spaces : Bytes → Bytes
drop_spaces [] = []
drop_spaces (c ∷ s) = let rest = drop_spaces s in if is_space c then rest else c ∷ s

abbrev is_empty : Bytes → Bool
is_empty [] = true
is_empty (c ∷ s) = false

unfoldable pub drop_last_spaces : Bytes → Bytes
drop_last_spaces [] = []
drop_last_spaces (c ∷ s) =
    let rest = drop_last_spaces s in if is_space c && is_empty rest then [] else c ∷ rest

unfoldable pub trim : Bytes → Bytes
trim s = drop_last_spaces (drop_spaces s)

unfoldable pub first_token : Bytes → Bytes
first_token [] = []
first_token (c ∷ s) = let rest = first_token s in if is_alpha c then c ∷ rest else []

-- An empty query has an empty keyword, which is none of the five.
abbrev mode_of : Bytes → ExecutionMode
mode_of keyword =
    if bytes_eq keyword (codes "CREATE")
      || bytes_eq keyword (codes "DROP")
      || bytes_eq keyword (codes "INSERT")
      || bytes_eq keyword (codes "UPDATE")
      || bytes_eq keyword (codes "DELETE")
    then async
    else sync

unfoldable pub classify_execution_mode : Bytes → ExecutionMode
classify_execution_mode query =
    let normalized = map to_upper (trim query) in
    if is_empty normalized then sync else mode_of (first_token normalized)

is_space-to_upper : (c : ℕ) → is_space (to_upper c) ≡ is_space c
unfolding is_space to_upper
is_space-to_upper c = ground arith

drop_spaces-to_upper : (s : Bytes) → drop_spaces (map to_upper s) ≡ map to_upper (drop_spaces s)
unfolding drop_spaces
drop_spaces-to_upper [] = refl
drop_spaces-to_upper (c ∷ s) = elim (Bool-cases (is_space c)) [
  | inl e ↦ rw (is_space-to_upper c, e, drop_spaces) (drop_spaces-to_upper s)
  | inr e ↦ rw (is_space-to_upper c, e, drop_spaces) refl
]

is_empty-map : (s : Bytes) → is_empty (map to_upper s) ≡ is_empty s
is_empty-map [] = refl
is_empty-map (c ∷ s) = refl

map-if :
    (b : Bool) (c : ℕ) (s : Bytes)
    → (if b then [] else to_upper c ∷ map to_upper s) ≡ map to_upper (if b then [] else c ∷ s)
map-if true c s = refl
map-if false c s = refl

drop_last_spaces-to_upper :
    (s : Bytes) → drop_last_spaces (map to_upper s) ≡ map to_upper (drop_last_spaces s)
unfolding drop_last_spaces
drop_last_spaces-to_upper [] = refl
drop_last_spaces-to_upper (c ∷ s) =
    rw (drop_last_spaces-to_upper s, is_space-to_upper c, is_empty-map (drop_last_spaces s))
      (map-if (is_space c && is_empty (drop_last_spaces s)) c (drop_last_spaces s))

trim-to_upper : (s : Bytes) → trim (map to_upper s) ≡ map to_upper (trim s)
unfolding trim
trim-to_upper s =
    ap drop_last_spaces (drop_spaces-to_upper s) ∙ drop_last_spaces-to_upper (drop_spaces s)

drop_spaces-append :
    (blanks s : Bytes)
    → All (λ c. is_space c ≡ true) blanks
    → drop_spaces (blanks ++ s) ≡ drop_spaces s
unfolding drop_spaces
drop_spaces-append [] s h = refl
drop_spaces-append (c ∷ blanks) s h = ground (arith, h.0, drop_spaces-append blanks s h.1)

-- Blanks in front of a query and the case of its letters do not matter to its mode.
pub classify_execution_mode-same :
    (blanks query other : Bytes)
    → All (λ c. is_space c ≡ true) blanks
    → map to_upper query ≡ map to_upper other
    → classify_execution_mode (blanks ++ query) ≡ classify_execution_mode other
unfolding classify_execution_mode trim
classify_execution_mode-same blanks query other h same =
    ap (λ n. if is_empty n then sync else mode_of (first_token n))
      (ap (λ s. map to_upper (drop_last_spaces s)) (drop_spaces-append blanks query h)
        ∙ sym (trim-to_upper query)
        ∙ ap trim same
        ∙ trim-to_upper other)
