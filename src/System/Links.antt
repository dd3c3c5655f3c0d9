-- ===== src/System/Links.antt =====
-- Which locks the library knows to come before which others, and what the calls do to it.
use lksmith.Base.{ℕ, ◌≡◌, ◌≢◌, sym, ◌∙◌, none, some, if◌then◌else◌, ◌==◌, ==_ne, ℕ_discrete}
use lksmith.Lock.{Lock, store}
use lksmith.Tree.{TreeLib}
use lksmith.Graph.{Graph, IsWf}
use lksmith.Graph.Update.{store_self, store_ne}
use lksmith.Graph.Remove.{Trimmed}
use lksmith.Depends.Grow.{Grows}
use lksmith.Depends.Link.{Precedes}

-- The pairs of mutexes that are in the order while no inversion was reported, and those that may be.
pub record Pairs : Type 1 where
  pub must : ℕ → ℕ → Type 0
  pub may : ℕ → ℕ → Type 0

-- One or more pairs of a relation lead from `p` to `q`.
pub data Ways (R : ℕ → ℕ → Type 0) : ℕ → ℕ → Type 0 where
  once : {p q : ℕ} → R p q → Ways R p q
  next : {p q s : ℕ} → R p q → Ways R q s → Ways R p s

pub Ways-trans : (R : ℕ → ℕ → Type 0) (p q s : ℕ) → Ways R p q → Ways R q s → Ways R p s
Ways-trans R p q s (once o) d = next o d
Ways-trans R p q s (next {q = m} o c) d = next o (Ways-trans R m q s c d)

pub Ways-map :
    (R S : ℕ → ℕ → Type 0) (f : (p q : ℕ) → R p q → S p q) (p q : ℕ) → Ways R p q → Ways S p q
Ways-map R S f p q (once o) = once (f p q o)
Ways-map R S f p q (next {q = m} o c) = next (f p m o) (Ways-map R S f m q c)

module _ (T : TreeLib) where
  -- The mutex at `p` is in the `before` array of the mutex at `q`.
  abbrev pub Edge : Graph T → ℕ → ℕ → Type 0
  Edge g p q =
      (a b : ℕ) × (T.find p g.tree ≡ some a) × (T.find q g.tree ≡ some b) × Precedes a b g.heap

  pub Edge-store :
      (g : Graph T) (lk : ℕ) (l l' : Lock)
      → g.heap lk ≡ some l
      → l'.before ≡ l.before
      → (p q : ℕ) → Edge g p q
      → Edge (record g { heap = store lk l' g.heap }) p q
  Edge-store g lk l l' at same p q (a, b, f, k, (m, e, i)) = elim (ℕ_discrete lk b) [
    | yes here ↦
        let there : g.heap lk ≡ some m = rw here e in
        let eq : m ≡ l = cc (there, at) in
        (a, b, f, k, (l', rw here (store_self b l' g.heap), rw same (rw eq at i)))
    | no ne ↦ (a, b, f, k, (m, store_ne lk b l' g.heap ne ∙ e, i))
  ]

  pub Edge-insert :
      (g g' : Graph T) (ptr new : ℕ)
      → T.find ptr g.tree ≡ none
      → g.heap new ≡ none
      → ((p : ℕ) → T.find p g'.tree ≡ (if ptr == p then some new else T.find p g.tree))
      → ((x : ℕ) → new ≢ x → g'.heap x ≡ g.heap x)
      → (p q : ℕ) → Edge g p q
      → Edge g' p q
  Edge-insert g g' ptr new unknown fresh found others p q (a, b, f, k, (m, e, i)) =
      (a, b, kept p a f, kept q b k, (m, others b (λ z. cc (fresh, e, z)) ∙ e, i))
    where
      kept : (p a : ℕ) → T.find p g.tree ≡ some a → T.find p g'.tree ≡ some a
      kept p a f = found p ∙ (rw (==_ne ptr p (λ e. cc (unknown, f, e))) f)

  pub Edge-Grows :
      (lk : ℕ) (Added : ℕ → Type 0) (g g' : Graph T)
      → Grows T lk Added g g'
      → (p q : ℕ) → Edge g p q
      → Edge g' p q
  Edge-Grows lk Added g g' grow p q (a, b, f, k, (m, e, i)) =
      let (m', e', x) = grow.locks b m e in
      (a, b, rw grow.tree f, rw grow.tree k, (m', e', x.keeps a i))

  -- The removal of a lock keeps the edges between other locks.
  pub Edge-forget :
      (g g' : Graph T) (ptr lk : ℕ) (l : Lock)
      → IsWf T g
      → g.heap lk ≡ some l
      → l.ptr ≡ ptr
      → IsWf T g'
      → ((x : ℕ) (m : Lock)
          → g.heap x ≡ some m
          → x ≢ lk
          → (m' : Lock) × (g'.heap x ≡ some m') × Trimmed lk (Unit {0}) m m')
      → (p q : ℕ) → Edge g p q
      → p ≢ ptr
      → q ≢ ptr
      → Edge g' p q
  Edge-forget g g' ptr lk l w at own w' stays p q (a, b, f, k, (m, e, i)) np nq =
      let (m', e', t) = stays b m e (other q b k nq) in
      (a, b, kept p a f np, kept q b k nq, (m', e', t.keeps a i (other p a f np)))
    where
      other : (p a : ℕ) → T.find p g.tree ≡ some a → p ≢ ptr → a ≢ lk
      other p a f ne same =
          let (n, u, r) = w.find-live p a f in
          let here : g.heap lk ≡ some n = rw same at u in
          let eq : n ≡ l = cc (here, at) in ne (sym r ∙ (rw eq own))

      kept : (p a : ℕ) → T.find p g.tree ≡ some a → p ≢ ptr → T.find p g'.tree ≡ some a
      kept p a f ne =
          let (n, u, r) = w.find-live p a f in
          let (n', u', t) = stays a n u (other p a f ne) in rw (t.ptr, r) at (w'.live-find a n' u')
