-- ===== src/Depends/Acyclic.antt =====
-- The order check keeps the order of locks free of cycles.
use lksmith.Base.{ℕ, ◌+◌, ◌^◌, ◌<◌, ◌≡◌, sym, ◌∙◌, ◌⊎◌, inl, inr, Bool, List, [], some, In, done}
use lksmith.Lock.{Lock, Heap}
use lksmith.Tree.{TreeLib}
use lksmith.Report.{Report}
use lksmith.Search.Post.{Leads, here, step}
use lksmith.Graph.{Graph, IsWf}
use lksmith.Depends.{lksmith_prelock_process_depends}
use lksmith.Depends.Grow.{Grows, Grows-live, Leads-Grows_inv}
use lksmith.Depends.Round.{inversions}
use lksmith.Depends.Order.{Candidate, process_depends-Checked}

-- One or more `before` entries lead from `x` to `y`.
pub data Chain (h : Heap) (y : ℕ) : ℕ → Type 0 where
  last : {x : ℕ} (l : Lock) → h x ≡ some l → In y l.before → Chain h y x
  more : {x : ℕ} (l : Lock) (z : ℕ) → h x ≡ some l → In z l.before → Chain h y z → Chain h y x

-- No lock was to be taken before itself.
abbrev pub IsAcyclic : Heap → Type 0
IsAcyclic h = (x : ℕ) → ¬ Chain h x x

pub Chain-trans : (h : Heap) (y z x : ℕ) → Chain h y x → Chain h z y → Chain h z x
Chain-trans h y z x (last l e m) d = more l y e m d
Chain-trans h y z x (more l w e m c) d = more l w e m (Chain-trans h y z w c d)

module _ (T : TreeLib) (lk ptr : ℕ) (g : Graph T) (l : Lock) (w : IsWf T g)
    (at : g.heap lk ≡ some l) (own : l.ptr ≡ ptr) where
  -- Only `lk` has the pointer `ptr`.
  pub Leads-Chain : (x : ℕ) → Leads g.heap ptr x → (x ≡ lk) ⊎ Chain g.heap lk x
  Leads-Chain x (here m e p) =
      let f = w.live-find x m e in
      let k = w.live-find lk l at in let pp : m.ptr ≡ l.ptr = p ∙ sym own in inl (cc (f, k, pp))
  Leads-Chain x (step m y e k v) = elim (Leads-Chain y v) [
    | inl q ↦ inr (last m e (rw q at k))
    | inr c ↦ inr (more m y e k c)
  ]

module _ (T : TreeLib) (lk ptr : ℕ) (Added : ℕ → Type 0) (g g' : Graph T) (l : Lock) (w : IsWf T g)
    (grow : Grows T lk Added g g') (at : g.heap lk ≡ some l) (own : l.ptr ≡ ptr)
    (safe : (b : ℕ) → Added b → ¬ Leads g.heap ptr b) where
  Chain-Leads : (x : ℕ) → Chain g'.heap lk x → Leads g'.heap ptr x
  Chain-Leads x (last m e k) =
      let (l', e', r) = grow.locks lk l at in step m lk e k (here l' e' (r.ptr ∙ own))
  Chain-Leads x (more m z e k c) = step m z e k (Chain-Leads z c)

  -- An edge out of `lk`, with a way back, is one of the old graph and closes a cycle there.
  edge-back :
      IsAcyclic g.heap
      → (b : ℕ) (m : Lock) → g'.heap lk ≡ some m
      → In b m.before
      → ¬ Leads g'.heap ptr b
  edge-back acyclic b m e k v =
      let (m0, f, r) = Grows-live T lk Added g g' w grow lk m e in
      let back = Leads-Grows_inv T lk Added ptr g g' w grow l at own b v in
      pick m0 f back (r.adds b k) (Leads-Chain T lk ptr g l w at own b back)
    where
      pick :
          (m0 : Lock)
          → g.heap lk ≡ some m0
          → Leads g.heap ptr b
          → In b m0.before ⊎ (lk ≡ lk) × Added b
          → (b ≡ lk) ⊎ Chain g.heap lk b
          → ⊥
      pick m0 f back (inr (_, a)) d = safe b a back
      pick m0 f back (inl old) (inl q) = acyclic lk (last m0 f (rw q at old))
      pick m0 f back (inl old) (inr c) = acyclic lk (more m0 b f old c)

  no_cycle_at_lk : IsAcyclic g.heap → ¬ Chain g'.heap lk lk
  no_cycle_at_lk acyclic (last m e k) =
      let (l', e', r) = grow.locks lk l at in edge-back acyclic lk m e k (here l' e' (r.ptr ∙ own))
  no_cycle_at_lk acyclic (more m z e k c) = edge-back acyclic z m e k (Chain-Leads z c)

  -- A chain of the new graph is one of the old, or passes through `lk`.
  Chain-split :
      (y x : ℕ)
      → Chain g'.heap y x
      → Chain g.heap y x ⊎ ((x ≡ lk) ⊎ Chain g'.heap lk x) × Chain g'.heap y lk
  Chain-split y x (last m e k) =
      let (m0, f, r) = Grows-live T lk Added g g' w grow x m e in pick m0 f (r.adds y k)
    where
      pick :
          (m0 : Lock)
          → g.heap x ≡ some m0
          → In y m0.before ⊎ (x ≡ lk) × Added y
          → Chain g.heap y x ⊎ ((x ≡ lk) ⊎ Chain g'.heap lk x) × Chain g'.heap y lk
      pick m0 f (inl old) = inl (last m0 f old)
      pick m0 f (inr (q, _)) = inr (inl q, last m (rw (← q) e) k)
  Chain-split y x (more m z e k c) =
      let (m0, f, r) = Grows-live T lk Added g g' w grow x m e in
      pick m0 f (r.adds z k) (Chain-split y z c)
    where
      pick :
          (m0 : Lock)
          → g.heap x ≡ some m0
          → In z m0.before ⊎ (x ≡ lk) × Added z
          → Chain g.heap y z ⊎ ((z ≡ lk) ⊎ Chain g'.heap lk z) × Chain g'.heap y lk
          → Chain g.heap y x ⊎ ((x ≡ lk) ⊎ Chain g'.heap lk x) × Chain g'.heap y lk
      pick m0 f (inr (q, _)) d = inr (inl q, more m z (rw (← q) e) k c)
      pick m0 f (inl old) (inl d) = inl (more m0 z f old d)
      pick m0 f (inl old) (inr (inl q, d)) = inr (inr (last m e (rw (← q) k)), d)
      pick m0 f (inl old) (inr (inr b, d)) = inr (inr (more m z e k b), d)

  Grows-IsAcyclic : IsAcyclic g.heap → IsAcyclic g'.heap
  Grows-IsAcyclic acyclic x c = pick (Chain-split x x c)
    where
      pick : Chain g.heap x x ⊎ ((x ≡ lk) ⊎ Chain g'.heap lk x) × Chain g'.heap x lk → ⊥
      pick (inl d) = acyclic x d
      pick (inr (inl q, d)) = no_cycle_at_lk acyclic (rw q at d)
      pick (inr (inr b, d)) = no_cycle_at_lk acyclic (Chain-trans g'.heap x lk lk d b)

-- If the order check of a well-formed graph whose order has no cycle reports no inversion, the order
-- that it leaves has no cycle either. (Live lock `lk` with the pointer `ptr`, and a colour counter
-- that does not wrap.)
pub process_depends-IsAcyclic :
    (T : TreeLib) (lk ptr : ℕ) (grow : ℕ → Bool) (held : List ℕ) (g g' : Graph T) (l : Lock)
    (rs : List Report)
    → IsWf T g
    → g.heap lk ≡ some l
    → l.ptr ≡ ptr
    → g.color + 1 < 2 ^ 64
    → lksmith_prelock_process_depends T grow held lk ptr g ≡ done (g', rs)
    → inversions rs ≡ []
    → IsAcyclic g.heap
    → IsAcyclic g'.heap
process_depends-IsAcyclic T lk ptr grow held g g' l rs w at own small run quiet acyclic =
    let (c, _, g1, ss, e, wf, fresh, p) =
      process_depends-Checked T lk ptr grow held g l w at own small in
    let same : g1 ≡ g' = cc (e, run) in
    let no_reports : inversions ss ≡ [] = cc (e, run, quiet) in
    rw same at (
      Grows-IsAcyclic T lk ptr (Candidate T lk ptr g held) (record g { color = c }) g1 l wf p.grows
        at own
        (λ b (h, m, f, n) v.
          let (k, r) = p.full fresh h m (b, f, n, v) in absurd (rw no_reports at r))
        acyclic)
