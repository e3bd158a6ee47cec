-- ===== src/Index/Tree/Shape.antt =====
-- The trees that the pages of an index stand for: what is read of a page decides a node, the nodes
-- hold the entries in order between their separators, and each leaf names the page of the next.
use dbms_project_sp.Base.{
  ℕ, zero, suc, ◌+◌, ◌<◌, ◌≤◌, ◌≡◌, ◌⊎◌, refl, sym, ap, subst, ◌∙◌, Bool, true, false, ◌||◌, ◌==◌,
  List, [], ◌∷◌, ◌++◌, length, map, append_assoc, append-nil, ok, All, arith,
}
use dbms_project_sp.Index.Key.{IndexKey, IndexKeyKind}
use dbms_project_sp.Index.Order.{OfKind, below}
use dbms_project_sp.Index.Entries.{Entries, Sorted, AllOfKind}
use dbms_project_sp.Index.Disk.{invalid_page_id, is_empty_index, page_count}
use dbms_project_sp.Index.Node.{IndexNode}
use dbms_project_sp.Index.Node.Reads.{IsMachine}
use dbms_project_sp.Index.Tree.{BStarPlusIndex, node_at}

-- Whether a page is among some.
abbrev pub contains : ℕ → List ℕ → Bool
contains page [] = false
contains page (p ∷ pages) = page == p || contains page pages

-- No page stands twice.
abbrev pub Distinct : List ℕ → Type 0
Distinct [] = Unit
Distinct (p ∷ pages) = (contains p pages ≡ false) × Distinct pages

-- What a subtree is said to be: its page, that of its first leaf, that of the leaf behind it, the
-- number of its leaves, its pages and its entries.
abbrev pub TreeAt : Type 1
TreeAt = ℕ → ℕ → ℕ → ℕ → List ℕ → Entries → Type 0

-- The children of a node, which the keys of the node stand between.
abbrev pub Subtrees :
    IndexKeyKind → TreeAt → List ℕ → List IndexKey → ℕ → ℕ → ℕ → List ℕ → Entries → Type 0
Subtrees kind S (c ∷ []) [] first next n pages es = S c first next n pages es
Subtrees kind S (c ∷ d ∷ cs) (k ∷ ks) first next n pages es =
    (left : Entries) × (right : Entries) × (mid : ℕ) × (m : ℕ) × (o : ℕ) × (in_left : List ℕ)
    × (in_right : List ℕ) × S c first mid m in_left left
    × Subtrees kind S (d ∷ cs) ks mid next o in_right right
    × (es ≡ left ++ right)
    × (n ≡ m + o)
    × (pages ≡ in_left ++ in_right)
    × OfKind kind k
    × All (λ e. below e.0 k ≡ true) left
    × All (λ e. below e.0 k ≡ false) right
Subtrees kind S _ _ first next n pages es = ⊥

module _ (t : BStarPlusIndex) where
  pub record IsLeaf (id next : ℕ) (es : Entries) (leaf : IndexNode) : Type 0 where
    pub read : node_at id t ≡ ok leaf
    pub is_leaf : leaf.is_leaf ≡ true
    pub own : leaf.page_id ≡ id
    pub following : leaf.next_leaf_page_id ≡ next
    pub keys : leaf.keys ≡ map (λ e. e.0) es
    pub records : leaf.records ≡ map (λ e. e.1) es
    pub no_children : leaf.children ≡ []
    pub machine : IsMachine leaf

  abbrev pub Subtree : ℕ → TreeAt
  Subtree zero id first next n pages es =
      (first ≡ id) × (n ≡ 1) × (pages ≡ id ∷ []) × (leaf : IndexNode) × IsLeaf id next es leaf
  Subtree (suc h) id first next n pages es =
      (node : IndexNode) × (below_it : List ℕ) × (node_at id t ≡ ok node)
      × (node.is_leaf ≡ false)
      × (pages ≡ id ∷ below_it)
      × Subtrees t.metadata.key_kind (Subtree h) node.children node.keys first next n below_it es

  -- The leaves from one on to another that is not counted.
  abbrev pub Chain : ℕ → ℕ → ℕ → Entries → Type 0
  Chain zero first last es = (first ≡ last) × (es ≡ [])
  Chain (suc n) first last es =
      (leaf : IndexNode) × (mid : ℕ) × (items : Entries) × (rest : Entries) × IsLeaf first mid items
        leaf
      × Chain n mid last rest
      × (es ≡ items ++ rest)

  pub record IsTree (es : Entries) : Type 0 where
    pub above : ℕ
    pub leaves : ℕ
    pub first : ℕ
    pub rooted : is_empty_index t.metadata ≡ false
    pub pages : List ℕ
    pub tree : Subtree above t.metadata.root_page_id first invalid_page_id leaves pages es
    pub apart : Distinct pages
    pub is_first : t.metadata.first_leaf_page_id ≡ first
    pub is_height : t.metadata.height ≡ suc above
    -- The pages of a path, and those of the leaves, are different ones.
    pub path_fits : above < page_count t.disk_manager
    pub leaves_fit : leaves ≤ page_count t.disk_manager
    pub counted : t.metadata.size ≡ length es
    pub sorted : Sorted es
    pub of_kind : AllOfKind t.metadata.key_kind es

  -- An index without entries has no root.
  pub record IsEmpty : Type 0 where
    pub no_root : is_empty_index t.metadata ≡ true
    pub counted : t.metadata.size ≡ 0

  abbrev pub IsIndex : Entries → Type 0
  IsIndex es = IsTree es ⊎ (IsEmpty × (es ≡ []))

  pub Chain-append :
      (total n m first mid last : ℕ) (xs ys : Entries)
      → total ≡ n + m
      → Chain n first mid xs
      → Chain m mid last ys
      → Chain total first last (xs ++ ys)
  Chain-append total zero m first mid last xs ys e (same, empty) k =
      subst (λ j. Chain j first last (xs ++ ys)) (omega (arith, e))
        (subst (λ id. Chain m id last (xs ++ ys)) (sym same)
          (subst (λ l. Chain m mid last (l ++ ys)) (sym empty) k))
  Chain-append zero (suc n) m first mid last xs ys e h k = absurd (omega (arith, e))
  Chain-append (suc total) (suc n) m first mid last xs ys e
        (leaf, next, items, rest, l, chain, is_xs) k =
      (
        leaf,
        next,
        items,
        rest ++ ys,
        l,
        Chain-append total n m next mid last rest ys (omega (arith, e)) chain k,
        ap (λ l. l ++ ys) is_xs ∙ append_assoc items rest ys,
      )

  pub Subtrees-Chain :
      (S : TreeAt) (children : List ℕ) (keys : List IndexKey) (first next n : ℕ) (pages : List ℕ)
      (es : Entries)
      → ((c f x m : ℕ) (ps : List ℕ) (part : Entries) → S c f x m ps part → Chain m f x part)
      → Subtrees t.metadata.key_kind S children keys first next n pages es
      → Chain n first next es
  Subtrees-Chain S (c ∷ []) [] first next n pages es step h = step c first next n pages es h
  Subtrees-Chain S (c ∷ d ∷ cs) (k ∷ ks) first next n pages es step
        (left, right, mid, m, o, ps, qs, sub, others, is_es, is_n, is_pages, kinded, under, over) =
      subst (Chain n first next) (sym is_es) (
        Chain-append n m o first mid next left right is_n (step c first mid m ps left sub)
          (Subtrees-Chain S (d ∷ cs) ks mid next o qs right step others))
  Subtrees-Chain S [] keys first next n pages es step h = elim h [ ]
  Subtrees-Chain S (c ∷ []) (k ∷ ks) first next n pages es step h = elim h [ ]
  Subtrees-Chain S (c ∷ d ∷ cs) [] first next n pages es step h = elim h [ ]

  pub Subtree-Chain :
      (h id first next n : ℕ) (pages : List ℕ) (es : Entries)
      → Subtree h id first next n pages es
      → Chain n first next es
  Subtree-Chain zero id first next n pages es (is_first, is_one, is_pages, leaf, l) =
      subst (λ j. Chain j first next es) (sym is_one)
        (subst (λ j. Chain 1 j next es) (sym is_first)
          (leaf, next, es, [], l, (refl, refl), sym (append-nil es)))
  Subtree-Chain (suc h) id first next n pages es (node, ps, at, inner, is_pages, subs) =
      Subtrees-Chain (Subtree h) node.children node.keys first next n ps es (Subtree-Chain h) subs
