-- ===== src/Index/Tree/Found.antt =====
-- Where a search ends: at the leaf between whose neighbours the key stands, and the tree again with
-- other entries in that leaf.
use dbms_project_sp.Base.{
  ℕ, zero, suc, ◌+◌, ◌<◌, ◌≡◌, ◌⊎◌, refl, sym, ap, subst, ◌∙◌, true, false, List, [], ◌∷◌, ◌++◌,
  ltb, ◌==◌, ==_iff, append_assoc, append-nil, ok, >>=-ok, >>-ok, guard-ok, All, All-append, arith,
  Bool-cases, inl, inr,
}
use dbms_project_sp.Index.Key.{IndexKey}
use dbms_project_sp.Index.Order.{OfKind, below}
use dbms_project_sp.Index.Entries.{Entries, AllOfKind, All-split, All-imp}
use dbms_project_sp.Index.Disk.{invalid_page_id, page_count, read_page, validate_existing_page_id}
use dbms_project_sp.Index.Node.{IndexNode}
use dbms_project_sp.Index.Tree.{BStarPlusIndex, node_at, find_leaf_from, find_from, find_in_leaf}
use dbms_project_sp.Index.Tree.Shape.{
  contains, Distinct, IsLeaf, Subtree, Subtrees, Chain, Chain-append,
}
use dbms_project_sp.Index.Tree.Frame.{Apart}
use dbms_project_sp.Index.Tree.Chosen.{Between, AmongKeys, Grown, chosen}

AmongKeys-left : (k : IndexKey) (xs ys : Entries) → AmongKeys k xs → AmongKeys k (xs ++ ys)
AmongKeys-left k [] ys h = elim h [ ]
AmongKeys-left k (x ∷ xs) ys (inl e) = inl e
AmongKeys-left k (x ∷ xs) ys (inr h) = inr (AmongKeys-left k xs ys h)

AmongKeys-right : (k : IndexKey) (xs ys : Entries) → AmongKeys k ys → AmongKeys k (xs ++ ys)
AmongKeys-right k [] ys h = h
AmongKeys-right k (x ∷ xs) ys h = inr (AmongKeys-right k xs ys h)

pub own_keys : (es : Entries) → All (λ e. AmongKeys e.0 es) es
own_keys [] = tt
own_keys (e ∷ es) = (
  inl refl,
  All-imp (λ f. AmongKeys f.0 es) (λ f. AmongKeys f.0 (e ∷ es)) es (λ f h. inr h) (own_keys es),
)

Grown-between :
    (key : IndexKey) (front items behind new : Entries)
    → Grown key items new
    → Grown key (front ++ (items ++ behind)) (front ++ (new ++ behind))
Grown-between key front items behind new g =
    let all = front ++ (items ++ behind) in
    let P = λ (e : IndexKey × ℕ). (e.0 ≡ key) ⊎ AmongKeys e.0 all in
    All-append P front (new ++ behind)
      (All-imp (λ e. AmongKeys e.0 front) P front
        (λ e h. inr (AmongKeys-left e.0 front (items ++ behind) h)) (own_keys front))
      (All-append P new behind
        (All-imp (λ e. (e.0 ≡ key) ⊎ AmongKeys e.0 items) P new
          (λ e h. elim h [
            | inl same ↦ inl same
            | inr among ↦ inr (
                AmongKeys-right e.0 front (items ++ behind) (AmongKeys-left e.0 items behind among))
          ])
          g)
        (All-imp (λ e. AmongKeys e.0 behind) P behind
          (λ e h.
            inr (AmongKeys-right e.0 front (items ++ behind) (AmongKeys-right e.0 items behind h)))
          (own_keys behind)))

nest_assoc :
    (front a b c behind : Entries)
    → front ++ ((a ++ (b ++ c)) ++ behind) ≡ (front ++ a) ++ (b ++ (c ++ behind))
nest_assoc front a b c behind =
    ap (λ l. front ++ l)
      (append_assoc a (b ++ c) behind ∙ ap (λ l. a ++ l) (append_assoc b c behind))
    ∙ sym (append_assoc front a (b ++ (c ++ behind)))

Between-nest :
    (key : IndexKey) (front mid behind es inner_front items inner_behind : Entries)
    → Between key front mid behind es
    → Between key inner_front items inner_behind mid
    → Between key (front ++ inner_front) items (inner_behind ++ behind) es
Between-nest key front mid behind es inner_front items inner_behind (is_es, low, high)
      (is_mid, inner_low, inner_high) =
    (
      is_es
          ∙ ap (λ l. front ++ (l ++ behind)) is_mid
          ∙ nest_assoc front inner_front items inner_behind behind,
      All-append (λ f. below f.0 key ≡ true) front inner_front low inner_low,
      All-append (λ f. below key f.0 ≡ true) inner_behind behind inner_high high,
    )

other_page :
    (page id : ℕ) (ps : List ℕ)
    → contains page ps ≡ true
    → contains id ps ≡ false
    → (page == id) ≡ false
other_page page id ps h k = elim (Bool-cases (page == id)) [
  | inl e ↦ cc (k, subst (λ x. contains x ps ≡ true) ((==_iff page id).0 e) h)
  | inr e ↦ e
]

module _ (t : BStarPlusIndex) (key : IndexKey) (of_kind : OfKind t.metadata.key_kind key) where
  -- The leaf of a subtree in which the key stands, if it stands anywhere; both searches go there.
  pub record Located (h fuel id first next n : ℕ) (pages : List ℕ) (es : Entries) : Type 0 where
    pub leaf : IndexNode
    pub page : ℕ
    pub following : ℕ
    pub others : ℕ
    pub front : Entries
    pub items : Entries
    pub behind : Entries
    pub is_leaf : IsLeaf t page following items leaf
    pub chain : Chain t others following next behind
    pub between : Between key front items behind es
    pub fewer : others < n
    pub inside : contains page pages ≡ true
    pub finds : find_from fuel key id t ≡ find_in_leaf leaf key
    pub leads :
        (path : List ℕ) → (way : List ℕ) × (find_leaf_from fuel key id path t ≡ ok (leaf, way))
    -- The leaf may be written anew, with the key or without it.
    pub plug :
        (u : BStarPlusIndex) (new : Entries) (changed : IndexNode)
        → Apart page t u
        → Grown key items new
        → IsLeaf u page following new changed
        → Subtree u h id first next n pages (front ++ (new ++ behind))

  pub node_at-valid :
      (id : ℕ) (node : IndexNode)
      → node_at id t ≡ ok node
      → ((id == invalid_page_id) ≡ false) × (ltb id (page_count t.disk_manager) ≡ true)
  unfolding node_at read_page validate_existing_page_id
  node_at-valid id node h =
      let (page, read, rest) = >>=-ok (read_page id t.disk_manager) _ h in
      let checked = (>>-ok (validate_existing_page_id id (page_count t.disk_manager)) _ read).0 in
      ground (arith, guard-ok _ _ checked)

  pub locate :
      (h fuel id first next n : ℕ) (pages : List ℕ) (es : Entries)
      → h < fuel
      → AllOfKind t.metadata.key_kind es
      → Distinct pages
      → Subtree t h id first next n pages es
      → Located h fuel id first next n pages es
  unfolding find_from find_leaf_from
  locate h zero id first next n pages es l kinds d s = absurd (omega (arith, l))
  locate zero (suc fuel) id first next n pages es l kinds d (is_first, is_one, is_pages, leaf, at) =
      let valid = (node_at-valid id leaf at.read).0 in
      record {
        leaf = leaf;
        page = id;
        following = next;
        others = 0;
        front = [];
        items = es;
        behind = [];
        is_leaf = at;
        chain = (refl, refl);
        between = (sym (append-nil es), tt, tt);
        fewer = omega (arith, is_one);
        inside = subst (λ l. contains id l ≡ true) (sym is_pages) (ground arith);
        finds = rw (valid, at.read, at.is_leaf, find_from) refl;
        leads = λ path. (id ∷ path, rw (valid, at.read, at.is_leaf, find_leaf_from) refl);
        plug = λ u new changed a g at.
            subst (Subtree u zero id first next n pages) (sym (append-nil new))
              (is_first, is_one, is_pages, changed, at);
      }
  locate (suc h) (suc fuel) id first next n pages es l kinds d
        (node, ps, read, inner, is_pages, subs) =
      let valid = (node_at-valid id node read).0 in
      let apart = subst Distinct is_pages d in
      let c =
        chosen t key of_kind h node.children node.keys first next n ps es kinds apart.1 subs in
      let of_mid =
        (All-split (λ e. OfKind t.metadata.key_kind e.0) c.mid c.behind
          (All-split (λ e. OfKind t.metadata.key_kind e.0) c.front (c.mid ++ c.behind)
            (subst (AllOfKind t.metadata.key_kind) c.between.0 kinds)).1).0 in
      let r =
        locate h fuel c.c c.f c.x c.m c.own c.mid (omega (arith, l)) of_mid c.distinct c.sub in
      let mem = c.inside r.page r.inside in
      record {
        leaf = r.leaf;
        page = r.page;
        following = r.following;
        others = r.others + c.o;
        front = c.front ++ r.front;
        items = r.items;
        behind = r.behind ++ c.behind;
        is_leaf = r.is_leaf;
        chain =
            Chain-append t (r.others + c.o) r.others c.o r.following c.x next r.behind c.behind refl
              r.chain c.chain;
        between =
            Between-nest key c.front c.mid c.behind es r.front r.items r.behind c.between r.between;
        fewer = omega (arith, r.fewer, c.fit);
        inside = subst (λ l. contains r.page l ≡ true) (sym is_pages) (ground (arith, mem));
        finds = rw (valid, read, inner, c.picked, find_from) r.finds;
        leads = λ path.
            let (way, e) = r.leads (id ∷ path) in
            (way, rw (valid, read, inner, c.picked, find_leaf_from) e);
        plug = λ u new changed a g at. (
          node,
          ps,
          a.elsewhere id (other_page r.page id ps mem apart.0) ∙ read,
          inner,
          is_pages,
          subst (Subtrees u.metadata.key_kind (Subtree u h) node.children node.keys first next n ps)
              (nest_assoc c.front r.front new r.behind c.behind)
              (c.plug r.page u (r.front ++ (new ++ r.behind)) a r.inside
                (subst (λ l. Grown key l (r.front ++ (new ++ r.behind))) (sym r.between.0)
                  (Grown-between key r.front r.items r.behind new g))
                (r.plug u new changed a g at)),
        );
      }
