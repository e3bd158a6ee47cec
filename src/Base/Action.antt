-- ===== src/Base/Action.antt =====
-- Code that changes a state and may throw; what it changed before it threw stays changed.
use mathlib.Core.List.{List, [], ◌∷◌}
use dbms_project_sp.Base.Outcome.{Result, ok, err}

abbrev pub Action : Type 0 → Type 0 → Type 0 → Type 0
Action W E A = W → W × Result E A

module _ {W E : Type 0} where
  abbrev pub pure : {A : Type 0} → A → Action W E A
  pure a w = (w, ok a)

  abbrev pub raise : {A : Type 0} → E → Action W E A
  raise e w = (w, err e)

  abbrev pub resume : {A B : Type 0} → Result E A → (A → Action W E B) → W → W × Result E B
  resume (ok a) f w = f a w
  resume (err e) f w = (w, err e)

  infixl 5 ◌>>=◌ ◌>>◌
  abbrev pub ◌>>=◌ : {A B : Type 0} → Action W E A → (A → Action W E B) → Action W E B
  (m >>= f) w = let (v, r) = m w in resume r f v

  abbrev pub ◌>>◌ : {A B : Type 0} → Action W E A → Action W E B → Action W E B
  m >> n = m >>= λ _. n

  -- What is read of the state, and an outcome that was computed without it.
  abbrev pub gets : {A : Type 0} → (W → A) → Action W E A
  gets f w = (w, ok (f w))

  abbrev pub from_result : {A : Type 0} → Result E A → Action W E A
  from_result r w = (w, r)

  -- The loop `for (x : xs)`.
  abbrev pub for_each : {A : Type 0} → (A → Action W E (Unit {0})) → List A → Action W E (Unit {0})
  for_each f [] = pure tt
  for_each f (x ∷ xs) = f x >> for_each f xs

  -- A property of the state that an action leads from, to one of the state that it leaves, also
  -- where it throws.
  abbrev pub Leads : {A : Type 0} → (W → Type 0) → (W → Type 0) → Action W E A → Type 0
  Leads P Q m = (w : W) → P w → Q (m w).0

  resume-Leads :
      {A B : Type 0} (Q R : W → Type 0) (r : Result E A) (f : A → Action W E B) (w : W)
      → (Q w → R w)
      → ((a : A) → Leads Q R (f a))
      → Q w
      → R (resume r f w).0
  resume-Leads Q R (ok a) f w weak h q = h a w q
  resume-Leads Q R (err e) f w weak h q = weak q

  -- Where the first action throws, what it left is enough for the end.
  pub bind-Leads :
      {A B : Type 0} (P Q R : W → Type 0) (m : Action W E A) (f : A → Action W E B)
      → ((w : W) → Q w → R w)
      → Leads P Q m
      → ((a : A) → Leads Q R (f a))
      → Leads P R (m >>= f)
  bind-Leads P Q R m f weak h k w p = resume-Leads Q R (m w).1 f (m w).0 (weak (m w).0) k (h w p)

  abbrev pub Keeps : {A : Type 0} → (W → Type 0) → Action W E A → Type 0
  Keeps P m = Leads P P m

  pub bind-Keeps :
      {A B : Type 0} (P : W → Type 0) (m : Action W E A) (f : A → Action W E B)
      → Keeps P m
      → ((a : A) → Keeps P (f a))
      → Keeps P (m >>= f)
  bind-Keeps P m f h k = bind-Leads P P P m f (λ w p. p) h k

  pub for_each-Keeps :
      {A : Type 0} (P : W → Type 0) (f : A → Action W E (Unit {0})) (xs : List A)
      → ((a : A) → Keeps P (f a))
      → Keeps P (for_each f xs)
  for_each-Keeps P f [] h = λ w p. p
  for_each-Keeps P f (x ∷ xs) h =
      bind-Keeps P (f x) (λ _. for_each f xs) (h x) (λ _. for_each-Keeps P f xs h)
