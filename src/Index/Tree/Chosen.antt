-- ===== src/Index/Tree/Chosen.antt =====
-- The child that a search goes to, and the children again with another subtree in its place.
use dbms_project_sp.Base.{
  ℕ, suc, ◌+◌, ◌≤◌, ◌≡◌, ◌⊎◌, refl, sym, ap, subst, ◌∙◌, true, false, List, [], ◌∷◌, ◌++◌,
  append_assoc, append-nil, Result, ok, err, ◌>>=◌, All, All-append, arith, Bool-cases, inl, inr,
}
use dbms_project_sp.Index.Scalar.{IndexError}
use dbms_project_sp.Index.Key.{IndexKey}
use dbms_project_sp.Index.Order.{OfKind, below, compared, below-not_below}
use dbms_project_sp.Index.Entries.{Entries, AllOfKind, AllBelow, AllAbove, All-split}
use dbms_project_sp.Index.Tree.{BStarPlusIndex, upper_bound, child_at, child_of, child_for_key}
use dbms_project_sp.Index.Tree.Frame.{Apart, Distinct-append, Subtrees-frame, Subtree-frame}
use dbms_project_sp.Index.Tree.Shape.{
  contains, Distinct, Subtrees, Subtree, Chain, Subtrees-Chain, Subtree-Chain,
}

-- The key stands behind the front and before what is behind.
abbrev pub Between : IndexKey → Entries → Entries → Entries → Entries → Type 0
Between key front mid behind es =
    (es ≡ front ++ (mid ++ behind)) × AllBelow front key × AllAbove key behind

All-both {ℓ} :
    {A : Type ℓ} (P Q R : A → Type 0) (xs : List A)
    → ((x : A) → P x → Q x → R x)
    → All P xs
    → All Q xs
    → All R xs
All-both P Q R [] f h k = tt
All-both P Q R (x ∷ xs) f h k = (f x h.0 k.0, All-both P Q R xs f h.1 k.1)

contains-left :
    (page : ℕ) (ps qs : List ℕ) → contains page ps ≡ true → contains page (ps ++ qs) ≡ true
contains-left page [] qs h = cc h
contains-left page (p ∷ ps) qs h = ground (arith, contains-left page ps qs)

contains-right :
    (page : ℕ) (ps qs : List ℕ) → contains page qs ≡ true → contains page (ps ++ qs) ≡ true
contains-right page [] qs h = h
contains-right page (p ∷ ps) qs h = ground (arith, contains-right page ps qs)

next_child :
    (r : Result IndexError ℕ) (c : ℕ) (cs : List ℕ)
    → (r >>= (λ i. ok (suc i)) >>= λ i. child_of (child_at i (c ∷ cs)))
      ≡ (r >>= λ i. child_of (child_at i cs))
next_child (ok i) c cs = refl
next_child (err e) c cs = refl

-- What stands in place of some entries: nothing but them and the key.
abbrev pub AmongKeys : IndexKey → Entries → Type 0
AmongKeys key [] = ⊥
AmongKeys key ((k, r) ∷ es) = (k ≡ key) ⊎ AmongKeys key es

abbrev pub Grown : IndexKey → Entries → Entries → Type 0
Grown key old new = All (λ e. (e.0 ≡ key) ⊎ AmongKeys e.0 old) new

of_among :
    (P : IndexKey → Type 0) (k : IndexKey) (old : Entries)
    → All (λ e. P e.0) old
    → AmongKeys k old
    → P k
of_among P k [] h a = elim a [ ]
of_among P k ((j, r) ∷ old) h (inl e) = subst P e h.0
of_among P k ((j, r) ∷ old) h (inr a) = of_among P k old h.1 a

pub Grown-All :
    (P : IndexKey → Type 0) (key : IndexKey) (old new : Entries)
    → Grown key old new
    → All (λ e. P e.0) old
    → P key
    → All (λ e. P e.0) new
Grown-All P key old [] g h p = tt
Grown-All P key old ((k, r) ∷ new) (inl e, g) h p =
    (subst P (sym e) p, Grown-All P key old new g h p)
Grown-All P key old ((k, r) ∷ new) (inr a, g) h p =
    (of_among P k old h a, Grown-All P key old new g h p)

module _ (t : BStarPlusIndex) (key : IndexKey) (of_kind : OfKind t.metadata.key_kind key) where
  -- The child that the search goes to, and the children again, where that child and its entries are
  -- others in an index that differs in one page of the child.
  pub record Chosen (h : ℕ) (cs : List ℕ) (ks : List IndexKey) (first next n : ℕ) (pages : List ℕ)
      (es : Entries) : Type 0 where
    pub c : ℕ
    pub f : ℕ
    pub x : ℕ
    pub m : ℕ
    pub o : ℕ
    pub own : List ℕ
    pub front : Entries
    pub mid : Entries
    pub behind : Entries
    pub picked : child_for_key ks cs key ≡ ok c
    pub sub : Subtree t h c f x m own mid
    pub distinct : Distinct own
    pub chain : Chain t o x next behind
    pub between : Between key front mid behind es
    pub fit : m + o ≤ n
    pub inside : (page : ℕ) → contains page own ≡ true → contains page pages ≡ true
    pub plug :
        (page : ℕ) (u : BStarPlusIndex) (new : Entries)
        → Apart page t u
        → contains page own ≡ true
        → Grown key mid new
        → Subtree u h c f x m own new
        → Subtrees u.metadata.key_kind
            (Subtree u h)
            cs
            ks
            first
            next
            n
            pages
            (front ++ (new ++ behind))

  pub chosen :
      (h : ℕ) (cs : List ℕ) (ks : List IndexKey) (first next n : ℕ) (pages : List ℕ) (es : Entries)
      → AllOfKind t.metadata.key_kind es
      → Distinct pages
      → Subtrees t.metadata.key_kind (Subtree t h) cs ks first next n pages es
      → Chosen h cs ks first next n pages es
  unfolding child_for_key upper_bound
  chosen h (c ∷ []) [] first next n pages es kinds d s = record {
    c = c;
    f = first;
    x = next;
    m = n;
    o = 0;
    own = pages;
    front = [];
    mid = es;
    behind = [];
    picked = refl;
    sub = s;
    distinct = d;
    chain = (refl, refl);
    between = (sym (append-nil es), tt, tt);
    fit = omega arith;
    inside = λ page e. e;
    plug =
        λ page u new a mem g s. subst (Subtree u h c first next n pages) (sym (append-nil new)) s;
  }
  chosen h (c ∷ d ∷ cs) (k ∷ ks) first next n pages es kinds apart
        (left, right, mid, m, o, ps, qs, sub, others, is_es, is_n, is_pages, kinded, under, over) =
      let (of_left, of_right) =
        All-split (λ e. OfKind t.metadata.key_kind e.0) left right
          (subst (AllOfKind t.metadata.key_kind) is_es kinds) in
      let (dp, dq, off_right, off_left) = Distinct-append ps qs (subst Distinct is_pages apart) in
      let tested = (compared t.metadata.key_kind key k of_kind kinded).0 in
      elim (Bool-cases (below key k)) [
        | inl e ↦ record {
          c = c;
          f = first;
          x = mid;
          m = m;
          o = o;
          own = ps;
          front = [];
          mid = left;
          behind = right;
          picked = rw (tested, e) refl;
          sub = sub;
          distinct = dp;
          chain =
              Subtrees-Chain t (Subtree t h) (d ∷ cs) ks mid next o qs right (Subtree-Chain t h)
                others;
          between = (
            is_es,
            tt,
            All-both (λ f. OfKind t.metadata.key_kind f.0) (λ f. below f.0 k ≡ false)
                (λ f. below key f.0 ≡ true) right
                (λ f q b. below-not_below t.metadata.key_kind key k f.0 kinded q e b) of_right over,
          );
          fit = omega (arith, is_n);
          inside = λ page mem.
              subst (λ l. contains page l ≡ true) (sym is_pages) (contains-left page ps qs mem);
          plug = λ page u new a mem g s. (
            new,
            right,
            mid,
            m,
            o,
            ps,
            qs,
            s,
            Subtrees-frame page t u a h (Subtree-frame page t u a h) (d ∷ cs) ks mid next o qs right
                (off_right page mem) others,
            refl,
            is_n,
            is_pages,
            subst (λ kind. OfKind kind k) (sym a.kind) kinded,
            Grown-All (λ j. below j k ≡ true) key left new g under e,
            over,
          );
        }
        | inr e ↦
            let r = chosen h (d ∷ cs) ks mid next o qs right of_right dq others in
            record {
              c = r.c;
              f = r.f;
              x = r.x;
              m = r.m;
              o = r.o;
              own = r.own;
              front = left ++ r.front;
              mid = r.mid;
              behind = r.behind;
              picked = rw (tested, e) (next_child (upper_bound key ks) c (d ∷ cs) ∙ r.picked);
              sub = r.sub;
              distinct = r.distinct;
              chain = r.chain;
              between = (
                is_es
                    ∙ ap (λ l. left ++ l) r.between.0
                    ∙ sym (append_assoc left r.front (r.mid ++ r.behind)),
                All-append (λ f. below f.0 key ≡ true) left r.front
                    (All-both (λ f. OfKind t.metadata.key_kind f.0) (λ f. below f.0 k ≡ true)
                      (λ f. below f.0 key ≡ true) left
                      (λ f q b. below-not_below t.metadata.key_kind f.0 k key kinded of_kind b e)
                      of_left under)
                    r.between.1,
                r.between.2,
              );
              fit = omega (arith, is_n, r.fit);
              inside = λ page mem.
                  subst (λ l. contains page l ≡ true) (sym is_pages)
                    (contains-right page ps qs (r.inside page mem));
              plug = λ page u new a mem g s.
                  let off = off_left page (r.inside page mem) in
                  let (over_front, over_more) =
                    All-split (λ f. below f.0 k ≡ false) r.front (r.mid ++ r.behind)
                      (subst (All (λ f. below f.0 k ≡ false)) r.between.0 over) in
                  let (over_mid, over_behind) =
                    All-split (λ f. below f.0 k ≡ false) r.mid r.behind over_more in
                  (
                    left,
                    r.front ++ (new ++ r.behind),
                    mid,
                    m,
                    o,
                    ps,
                    qs,
                    Subtree-frame page t u a h c first mid m ps left off sub,
                    r.plug page u new a mem g s,
                    append_assoc left r.front (new ++ r.behind),
                    is_n,
                    is_pages,
                    subst (λ kind. OfKind kind k) (sym a.kind) kinded,
                    under,
                    All-append (λ f. below f.0 k ≡ false) r.front (new ++ r.behind) over_front
                        (All-append (λ f. below f.0 k ≡ false) new r.behind
                          (Grown-All (λ j. below j k ≡ false) key r.mid new g over_mid e)
                          over_behind),
                  );
            }
      ]
  chosen h [] ks first next n pages es kinds d s = elim s [ ]
  chosen h (c ∷ []) (k ∷ ks) first next n pages es kinds d s = elim s [ ]
  chosen h (c ∷ e ∷ cs) [] first next n pages es kinds d s = elim s [ ]
