-- ===== src/Index/Tree/Frame.antt =====
-- A subtree is what it was where one page was written that is none of its own.
use dbms_project_sp.Base.{
  ℕ, zero, suc, ◌≡◌, refl, sym, subst, ◌∙◌, true, false, ◌==◌, ==_iff, List, [], ◌∷◌, ◌++◌, arith,
  Bool-cases, inl, inr,
}
use dbms_project_sp.Index.Key.{IndexKey}
use dbms_project_sp.Index.Order.{OfKind}
use dbms_project_sp.Index.Entries.{Entries}
use dbms_project_sp.Index.Node.{IndexNode}
use dbms_project_sp.Index.Tree.{BStarPlusIndex, node_at}
use dbms_project_sp.Index.Tree.Shape.{contains, Distinct, Subtrees, IsLeaf, Subtree}

-- The indexes differ at most in one page, the sizes and what is not reached from the root.
pub record Apart (page : ℕ) (t u : BStarPlusIndex) : Type 0 where
  pub kind : u.metadata.key_kind ≡ t.metadata.key_kind
  pub elsewhere : (id : ℕ) → (page == id) ≡ false → node_at id u ≡ node_at id t

pub contains-append :
    (page : ℕ) (ps qs : List ℕ)
    → contains page (ps ++ qs) ≡ false
    → (contains page ps ≡ false) × (contains page qs ≡ false)
contains-append page [] qs h = (refl, h)
contains-append page (p ∷ ps) qs h = ground (arith, contains-append page ps qs)

pub Distinct-append :
    (ps qs : List ℕ)
    → Distinct (ps ++ qs)
    → Distinct ps
      × Distinct qs
      × ((page : ℕ) → contains page ps ≡ true → contains page qs ≡ false)
      × ((page : ℕ) → contains page qs ≡ true → contains page ps ≡ false)
Distinct-append [] qs h = (tt, h, (λ page e. cc e), λ page e. refl)
Distinct-append (p ∷ ps) qs h =
    let (out_ps, out_qs) = contains-append p ps qs h.0 in
    let (dp, dq, f, g) = Distinct-append ps qs h.1 in
    (
      (out_ps, dp),
      dq,
      (λ page e. elim (Bool-cases (page == p)) [
        | inl same ↦ subst (λ x. contains x qs ≡ false) (sym ((==_iff page p).0 same)) out_qs
        | inr other ↦ f page (ground (arith, e, other))
      ]),
      λ page e. elim (Bool-cases (page == p)) [
        | inl same ↦ cc (out_qs, subst (λ x. contains x qs ≡ true) ((==_iff page p).0 same) e)
        | inr other ↦ ground (arith, other, g page e)
      ],
    )

module _ (page : ℕ) (t u : BStarPlusIndex) (a : Apart page t u) where
  pub IsLeaf-frame :
      (id next : ℕ) (es : Entries) (leaf : IndexNode)
      → (page == id) ≡ false
      → IsLeaf t id next es leaf
      → IsLeaf u id next es leaf
  IsLeaf-frame id next es leaf h l = record {
    read = a.elsewhere id h ∙ l.read;
    is_leaf = l.is_leaf;
    own = l.own;
    following = l.following;
    keys = l.keys;
    records = l.records;
    no_children = l.no_children;
    machine = l.machine;
  }

  pub Subtrees-frame :
      (h : ℕ)
      → ((c f x m : ℕ) (ps : List ℕ) (part : Entries)
          → contains page ps ≡ false
          → Subtree t h c f x m ps part
          → Subtree u h c f x m ps part)
      → (cs : List ℕ) (ks : List IndexKey) (first next n : ℕ) (pages : List ℕ) (es : Entries)
      → contains page pages ≡ false
      → Subtrees t.metadata.key_kind (Subtree t h) cs ks first next n pages es
      → Subtrees u.metadata.key_kind (Subtree u h) cs ks first next n pages es
  Subtrees-frame h step (c ∷ []) [] first next n pages es out s = step c first next n pages es out s
  Subtrees-frame h step (c ∷ d ∷ cs) (k ∷ ks) first next n pages es out
        (left, right, mid, m, o, ps, qs, sub, others, is_es, is_n, is_pages, kinded, under, over) =
      let (off, beyond) =
        contains-append page ps qs (subst (λ l. contains page l ≡ false) is_pages out) in
      (
        left,
        right,
        mid,
        m,
        o,
        ps,
        qs,
        step c first mid m ps left off sub,
        Subtrees-frame h step (d ∷ cs) ks mid next o qs right beyond others,
        is_es,
        is_n,
        is_pages,
        subst (λ kind. OfKind kind k) (sym a.kind) kinded,
        under,
        over,
      )
  Subtrees-frame h step [] ks first next n pages es out s = elim s [ ]
  Subtrees-frame h step (c ∷ []) (k ∷ ks) first next n pages es out s = elim s [ ]
  Subtrees-frame h step (c ∷ d ∷ cs) [] first next n pages es out s = elim s [ ]

  pub Subtree-frame :
      (h id first next n : ℕ) (pages : List ℕ) (es : Entries)
      → contains page pages ≡ false
      → Subtree t h id first next n pages es
      → Subtree u h id first next n pages es
  Subtree-frame zero id first next n pages es out (is_first, is_one, is_pages, leaf, l) = (
    is_first,
    is_one,
    is_pages,
    leaf,
    IsLeaf-frame id next es leaf
        (ground (arith, (subst (λ l. contains page l ≡ false) is_pages out))) l,
  )
  Subtree-frame (suc h) id first next n pages es out (node, ps, read, inner, is_pages, subs) =
      let off = subst (λ l. contains page l ≡ false) is_pages out in
      (
        node,
        ps,
        a.elsewhere id (ground (arith, off)) ∙ read,
        inner,
        is_pages,
        Subtrees-frame h (Subtree-frame h) node.children node.keys first next n ps es
            (ground (arith, off)) subs,
      )
