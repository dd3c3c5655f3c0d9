-- ===== src/Depends/Grow.antt =====
-- What the order check may change: the `before` array of the lock that is being taken.
use lksmith.Base.{ℕ, ◌≡◌, refl, sym, ◌∙◌, ◌⊎◌, inl, inr, Bool, some, arith, In, done, ℕ_discrete}
use lksmith.Lock.{Lock, Heap, store}
use lksmith.Sorted.{lk_add_sorted}
use lksmith.Sorted.Laws.{lk_add_sorted_set, lk_add_sorted-keeps}
use lksmith.Graph.Update.{store_self, store_ne, lk_add_before_lem, IsWf-store}
use lksmith.Tree.{TreeLib}
use lksmith.Search.Paint.{erase, is_painted}
use lksmith.Search.Post.{Leads, here, step}
use lksmith.Graph.{Graph, IsWf, lk_add_before}
use lksmith.Graph.Walk.{erase-eq}

-- `l'` is `l` but for its colour and for entries of `before` that `Added` allows.
pub record Extends (Added : ℕ → Type 0) (l l' : Lock) : Type 0 where
  pub ptr : l'.ptr ≡ l.ptr
  pub props : l'.props ≡ l.props
  pub holders : l'.holders ≡ l.holders
  pub keeps : (b : ℕ) → In b l.before → In b l'.before
  pub adds : (b : ℕ) → In b l'.before → In b l.before ⊎ Added b

pub record Grows (T : TreeLib) (lk : ℕ) (Added : ℕ → Type 0) (g g' : Graph T) : Type 0 where
  pub tree : g'.tree ≡ g.tree
  pub color : g'.color ≡ g.color
  pub wf : IsWf T g'
  pub locks :
      (x : ℕ) (l : Lock)
      → g.heap x ≡ some l
      → (l' : Lock) × (g'.heap x ≡ some l') × Extends (λ b. (x ≡ lk) × Added b) l l'

module _ (T : TreeLib) (lk : ℕ) (Added : ℕ → Type 0) where
  pub Grows-refl : (g : Graph T) → IsWf T g → Grows T lk Added g g
  Grows-refl g w = record {
    tree = refl;
    color = refl;
    wf = w;
    locks = λ x l e. (
      l,
      e,
      record { ptr = refl; props = refl; holders = refl; keeps = λ b m. m; adds = λ b m. inl m },
    );
  }

  pub Grows-trans :
      (g g1 g2 : Graph T) → Grows T lk Added g g1 → Grows T lk Added g1 g2 → Grows T lk Added g g2
  Grows-trans g g1 g2 p q = record {
    tree = q.tree ∙ p.tree;
    color = q.color ∙ p.color;
    wf = q.wf;
    locks = λ x l e.
        let (l1, e1, r) = p.locks x l e in
        let (l2, e2, s) = q.locks x l1 e1 in
        (
          l2,
          e2,
          record {
            ptr = s.ptr ∙ r.ptr;
            props = s.props ∙ r.props;
            holders = s.holders ∙ r.holders;
            keeps = λ b m. s.keeps b (r.keeps b m);
            adds = λ b m. older x l l1 r b (s.adds b m);
          },
        );
  }
    where
      older :
          (x : ℕ) (l l1 : Lock)
          → Extends (λ b. (x ≡ lk) × Added b) l l1
          → (b : ℕ) → In b l1.before ⊎ (x ≡ lk) × Added b
          → In b l.before ⊎ (x ≡ lk) × Added b
      older x l l1 r b (inl m) = r.adds b m
      older x l l1 r b (inr a) = inr a

  -- A change of colours is no growth.
  pub Grows-recolor :
      (g : Graph T) (h : Heap)
      → ((x : ℕ) → erase (h x) ≡ erase (g.heap x))
      → IsWf T (record g { heap = h })
      → Grows T lk Added g (record g { heap = h })
  Grows-recolor g h s w = record {
    tree = refl;
    color = refl;
    wf = w;
    locks = λ x l e.
        let (m, f, p, q, r, b) = erase-eq (g.heap x) (h x) l (sym (s x)) e in
        (
          m,
          f,
          record {
            ptr = sym p;
            props = sym q;
            holders = sym r;
            keeps = λ c k. rw (← b) k;
            adds = λ c k. inl (rw b k);
          },
        );
  }

  -- No lock comes to life or dies.
  pub Grows-live :
      (g g' : Graph T)
      → IsWf T g
      → Grows T lk Added g g'
      → (x : ℕ) (l' : Lock) → g'.heap x ≡ some l'
      → (l : Lock) × (g.heap x ≡ some l) × Extends (λ b. (x ≡ lk) × Added b) l l'
  Grows-live g g' w p x l' e =
      let (l, f, _) = w.find-live l'.ptr x (rw p.tree at (p.wf.live-find x l' e)) in
      let (m, u, r) = p.locks x l f in let same : m ≡ l' = cc (u, e) in (l, f, rw same at r)

  module _ (ptr : ℕ) (g g' : Graph T) (w : IsWf T g) (grow : Grows T lk Added g g') where
    pub Leads-Grows : (x : ℕ) → Leads g.heap ptr x → Leads g'.heap ptr x
    Leads-Grows x (here l e p) = let (l', e', r) = grow.locks x l e in here l' e' (r.ptr ∙ p)
    Leads-Grows x (step l y e m v) =
        let (l', e', r) = grow.locks x l e in step l' y e' (r.keeps y m) (Leads-Grows y v)

    -- New entries leave the one lock that is sought, so they make no new way to it.
    pub Leads-Grows_inv :
        (l : Lock)
        → g.heap lk ≡ some l
        → l.ptr ≡ ptr
        → (x : ℕ) → Leads g'.heap ptr x
        → Leads g.heap ptr x
    Leads-Grows_inv l at own x (here l' e' p) =
        let (m, f, r) = Grows-live g g' w grow x l' e' in here m f (sym r.ptr ∙ p)
    Leads-Grows_inv l at own x (step l' y e' k v) =
        let (m, f, r) = Grows-live g g' w grow x l' e' in
        let rest = Leads-Grows_inv l at own y v in pick m f (r.adds y k) rest
      where
        pick :
            (m : Lock)
            → g.heap x ≡ some m
            → In y m.before ⊎ (x ≡ lk) × Added y
            → Leads g.heap ptr y
            → Leads g.heap ptr x
        pick m f (inl k) rest = step m y f k rest
        pick m f (inr (e, _)) rest = here l (rw e at) own

  -- lk_add_before on live locks: it grows the graph by at most the one entry.
  pub lk_add_before-Grows :
      (grown : Bool) (g : Graph T) (l a : Lock) (ak : ℕ)
      → IsWf T g
      → g.heap lk ≡ some l
      → g.heap ak ≡ some a
      → Added ak
      → (g' : Graph T) × (lk_add_before T grown lk ak g ≡ done g')
        × Grows T lk Added g g'
        × ((x : ℕ) (c : ℕ) → is_painted c (g'.heap x) ≡ is_painted c (g.heap x))
  lk_add_before-Grows grown g l a ak w at live added =
      let (sorted, _) = lk_add_sorted_set grown l.before ak (w.before-IsSorted lk l at) in
      let l' : Lock = record l { before = (lk_add_sorted grown l.before ak).1 } in
      let wf =
        IsWf-store T g lk l l' w at refl sorted (λ b m. lives b (adds b m)) (w.color-le lk l at) in
      (
        record g { heap = store lk l' g.heap },
        lk_add_before_lem T grown lk ak g l at,
        record { tree = refl; color = refl; wf = wf; locks = lock },
        λ x c. ground (arith, at),
      )
    where
      adds : (b : ℕ) → In b (lk_add_sorted grown l.before ak).1 → In b l.before ⊎ (b ≡ ak)
      adds b m = (lk_add_sorted-keeps grown l.before ak b (w.before-IsSorted lk l at)).1 m

      lives : (b : ℕ) → In b l.before ⊎ (b ≡ ak) → (m : Lock) × (g.heap b ≡ some m)
      lives b (inl m) = w.before-live lk l at b m
      lives b (inr e) = (a, rw e live)

      new : (x b : ℕ) → x ≡ lk → In b l.before ⊎ (b ≡ ak) → In b l.before ⊎ (x ≡ lk) × Added b
      new x b e (inl m) = inl m
      new x b e (inr f) = inr (e, rw f added)

      lock :
          (x : ℕ) (m : Lock)
          → g.heap x ≡ some m
          → (m' : Lock) × (store lk
                (record l { before = (lk_add_sorted grown l.before ak).1 })
                g.heap
                x
              ≡ some m')
            × Extends (λ b. (x ≡ lk) × Added b) m m'
      lock x m e = elim (ℕ_discrete lk x) [
        | yes p ↦
            let same : m ≡ l = cc (e, rw p at at) in
            (
              record l { before = (lk_add_sorted grown l.before ak).1 },
              rw p (store_self x _ g.heap),
              rw same (record {
                ptr = refl;
                props = refl;
                holders = refl;
                keeps = λ b k.
                    (lk_add_sorted-keeps grown l.before ak b (w.before-IsSorted lk l at)).0 k;
                adds = λ b k. new x b (sym p) (adds b k);
              }),
            )
        | no n ↦ (
          m,
          store_ne lk x _ g.heap n ∙ e,
          record {
            ptr = refl;
            props = refl;
            holders = refl;
            keeps = λ b k. k;
            adds = λ b k. inl k;
          },
        )
      ]
