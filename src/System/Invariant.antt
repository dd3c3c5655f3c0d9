-- ===== src/System/Invariant.antt =====
-- What holds between any two calls.
use lksmith.Base.{ℕ, suc, ◌≤◌, ◌≡◌, sym, ◌∙◌, ◌≢◌, ◌⊎◌, inl, inr, [], some, arith, In}
use lksmith.Lock.{Lock, Heap, store}
use lksmith.Tree.{TreeLib}
use lksmith.Graph.{Graph, IsWf}
use lksmith.Graph.Update.{store-cases, IsWf-store}
use lksmith.Cond.{Cond}
use lksmith.Cond.Laws as Waits
use lksmith.Depends.Round.{inversions}
use lksmith.Depends.Acyclic.{Chain, last, more, IsAcyclic}
use lksmith.World.{World}
use lksmith.World.Frame.{Same}
use lksmith.System.Links.{Edge, Edge-store, Pairs, Ways, Ways-map}
use lksmith.System.Sources.{Edge-store_inv}

-- Every entry of a `before` array of `h'` was one of `h`.
abbrev pub Fewer : Heap → Heap → Type 0
Fewer h h' =
    (x : ℕ) (l' : Lock) (b : ℕ)
    → h' x ≡ some l'
    → In b l'.before
    → (l : Lock) × (h x ≡ some l) × In b l.before

Chain-Fewer : (h h' : Heap) (y x : ℕ) → Fewer h h' → Chain h' y x → Chain h y x
Chain-Fewer h h' y x f (last l e k) = let (m, d, j) = f x l y e k in last m d j
Chain-Fewer h h' y x f (more l z e k c) =
    let (m, d, j) = f x l z e k in more m z d j (Chain-Fewer h h' y z f c)

pub IsAcyclic-Fewer : (h h' : Heap) → Fewer h h' → IsAcyclic h → IsAcyclic h'
IsAcyclic-Fewer h h' f a x c = a x (Chain-Fewer h h' x x f c)

pub Fewer-store :
    (h : Heap) (a : ℕ) (l l' : Lock) → h a ≡ some l → l'.before ≡ l.before → Fewer h (store a l' h)
Fewer-store h a l l' at same x m b e k = entry (store-cases a x l' m h e)
  where
    entry :
        ((x ≡ a) × (m ≡ l')) ⊎ ((a ≢ x) × (h x ≡ some m))
        → (n : Lock) × (h x ≡ some n) × In b n.before
    entry (inl (p, q)) = (l, rw p at, rw (← same, ← q) k)
    entry (inr (n, f)) = (m, f, k)

module _ (T : TreeLib) (O : Pairs) where
  -- After `n` calls: both trees and their heaps are well-formed, the colour counter and the reference
  -- counts are at most `n`; while no inversion was reported the order has no cycle and has the pairs
  -- that it must have; and it has no other pairs than it may, of which a reported inversion means a
  -- cycle.
  pub record Inv (n : ℕ) (w : World T) : Type 0 where
    pub wf : IsWf T w.graph
    pub colors : w.graph.color ≤ n
    pub acyclic : inversions w.log ≡ [] → IsAcyclic w.graph.heap
    pub order : inversions w.log ≡ [] → (p q : ℕ) → O.must p q → Edge T w.graph p q
    pub from : (p q : ℕ) → Edge T w.graph p q → O.may p q
    pub real : (h : ℕ) → In h (inversions w.log) → (p : ℕ) × Ways O.may p p
    pub conds : Waits.IsWf T w.conds
    pub counts : (a : ℕ) (c : Cond) → w.conds.heap a ≡ some c → c.refcnt ≤ n

  pub Inv-more : (n : ℕ) (w : World T) → Inv n w → Inv (suc n) w
  Inv-more n w i = record {
    wf = i.wf;
    colors = let c = i.colors in omega arith;
    acyclic = i.acyclic;
    order = i.order;
    from = i.from;
    real = i.real;
    conds = i.conds;
    counts = λ a c e. let k = i.counts a c e in omega arith;
  }

  -- The frame of a call keeps it.
  pub Inv-Same : (n : ℕ) (w w' : World T) → Inv n w → Same T w w' → Inv n w'
  Inv-Same n w w' i s = record {
    wf = rw s.graph i.wf;
    colors = rw s.graph i.colors;
    acyclic = λ q. rw s.graph (i.acyclic (sym s.log ∙ q));
    order = λ q a b o. rw s.graph (i.order (sym s.log ∙ q) a b o);
    from = λ a b e. i.from a b (rw s.graph at e);
    real = λ h m. i.real h (rw s.log at m);
    conds = rw s.conds i.conds;
    counts = λ a c e. i.counts a c (rw s.conds at e);
  }

  -- A write into a lock structure that keeps its pointer, colour and `before` array.
  pub Inv-store :
      (n lk : ℕ) (l l' : Lock) (w w' : World T)
      → Inv n w
      → w.graph.heap lk ≡ some l
      → l'.ptr ≡ l.ptr
      → l'.before ≡ l.before
      → l'.color ≡ l.color
      → Same T (let g = w.graph in record w { graph = record g { heap = store lk l' g.heap } }) w'
      → Inv n w'
  Inv-store n lk l l' w w' i at own before color s =
      let g = w.graph in
      let stored : Graph T = record g { heap = store lk l' g.heap } in
      Inv-Same n (record w { graph = stored }) w'
        (record {
          wf =
              IsWf-store T g lk l l' i.wf at own (rw before (i.wf.before-IsSorted lk l at))
                (rw before (i.wf.before-live lk l at)) (rw color (i.wf.color-le lk l at));
          colors = i.colors;
          acyclic = λ q.
              IsAcyclic-Fewer g.heap stored.heap (Fewer-store g.heap lk l l' at before)
                (i.acyclic q);
          order = λ q a b o. Edge-store T g lk l l' at before a b (i.order q a b o);
          from = λ a b e. i.from a b (Edge-store_inv T g lk l l' at before a b e);
          real = i.real;
          conds = i.conds;
          counts = i.counts;
        })
        s

-- Fewer pairs that the order must have.
pub Inv-fewer :
    (T : TreeLib) (O : Pairs) (must : ℕ → ℕ → Type 0) (n : ℕ) (w : World T)
    → ((p q : ℕ) → must p q → O.must p q)
    → Inv T O n w
    → Inv T (record O { must = must }) n w
Inv-fewer T O must n w fewer i = record {
  wf = i.wf;
  colors = i.colors;
  acyclic = i.acyclic;
  order = λ e p q o. i.order e p q (fewer p q o);
  from = i.from;
  real = i.real;
  conds = i.conds;
  counts = i.counts;
}

-- More pairs that it may have.
pub Inv-wider :
    (T : TreeLib) (O : Pairs) (may : ℕ → ℕ → Type 0) (n : ℕ) (w : World T)
    → ((p q : ℕ) → O.may p q → may p q)
    → Inv T O n w
    → Inv T (record O { may = may }) n w
Inv-wider T O may n w wider i = record {
  wf = i.wf;
  colors = i.colors;
  acyclic = i.acyclic;
  order = i.order;
  from = λ p q e. wider p q (i.from p q e);
  real = λ h m. let (p, c) = i.real h m in (p, Ways-map O.may may wider p p c);
  conds = i.conds;
  counts = i.counts;
}

-- More pairs that it must have, because it has them.
pub Inv-also :
    (T : TreeLib) (O : Pairs) (X : ℕ → Type 0) (n ptr : ℕ) (w : World T)
    → ((p : ℕ) → X p → inversions w.log ≡ [] → Edge T w.graph p ptr)
    → Inv T O n w
    → Inv T (record O { must = λ p q. O.must p q ⊎ (q ≡ ptr) × X p }) n w
Inv-also T O X n ptr w new i = record {
  wf = i.wf;
  colors = i.colors;
  acyclic = i.acyclic;
  order = λ e p q o. entry e p q o;
  from = i.from;
  real = i.real;
  conds = i.conds;
  counts = i.counts;
}
  where
    entry : inversions w.log ≡ [] → (p q : ℕ) → O.must p q ⊎ (q ≡ ptr) × X p → Edge T w.graph p q
    entry e p q (inl o) = i.order e p q o
    entry e p q (inr (same, x)) = rw same (new p x e)
