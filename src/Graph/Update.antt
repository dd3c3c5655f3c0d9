-- ===== src/Graph/Update.antt =====
-- Writes into a live lock structure, and the structure that lksmith_insert adds.
use lksmith.Base.{
  ℕ, ◌≤◌, ◌≡◌, sym, ◌∙◌, ◌≢◌, ◌⊎◌, inl, inr, Bool, Option, some, arith, In, done, ℕ_discrete,
  ==_refl, ==_ne,
}
use lksmith.Lock.{Lock, store}
use lksmith.Sorted.{lk_add_sorted}
use lksmith.Sorted.Laws.{IsSorted}
use lksmith.Tree.{TreeLib}
use lksmith.Graph.{Graph, IsWf, lk_add_before}

module _ {ℓ} {A : Type ℓ} where
  pub store_self : (a : ℕ) (v : A) (h : ℕ → Option A) → store a v h a ≡ some v
  store_self a v h = rw (==_refl a)

  pub store_ne : (a x : ℕ) (v : A) (h : ℕ → Option A) → a ≢ x → store a v h x ≡ h x
  store_ne a x v h ne = rw (==_ne a x ne)

  -- What a heap holds after a write.
  pub store-cases :
      (a x : ℕ) (v u : A) (h : ℕ → Option A)
      → store a v h x ≡ some u
      → ((x ≡ a) × (u ≡ v)) ⊎ ((a ≢ x) × (h x ≡ some u))
  store-cases a x v u h e = elim (ℕ_discrete a x) [
    | yes p ↦ let s : store a v h x ≡ some v = rw p (store_self x v h) in inl (sym p, cc (s, e))
    | no n ↦ inr (n, sym (store_ne a x v h n) ∙ e)
  ]

module _ (T : TreeLib) where
  pub lk_add_before_lem :
      (grown : Bool) (lk ak : ℕ) (g : Graph T) (l : Lock)
      → g.heap lk ≡ some l
      → lk_add_before T grown lk ak g
        ≡ done (record g {
          heap = store lk (record l { before = (lk_add_sorted grown l.before ak).1 }) g.heap;
        })
  unfolding lk_add_before
  lk_add_before_lem grown lk ak g l e = rw (e, lk_add_before)

  -- A write that keeps the pointer, and whose `before` array and colour are in order.
  pub IsWf-store :
      (g : Graph T) (a : ℕ) (l l' : Lock)
      → IsWf T g
      → g.heap a ≡ some l
      → l'.ptr ≡ l.ptr
      → IsSorted l'.before
      → ((b : ℕ) → In b l'.before → (m : Lock) × (g.heap b ≡ some m))
      → l'.color ≤ g.color
      → IsWf T (record g { heap = store a l' g.heap })
  IsWf-store g a l l' w at own sorted live col = record {
    find-live = λ p x e. found p x (w.find-live p x e);
    live-find = λ x m e. lives x m (store-cases a x l' m g.heap e);
    before-live = λ x m e b k. still b (entries x m b k (store-cases a x l' m g.heap e));
    before-IsSorted = λ x m e. sorts x m (store-cases a x l' m g.heap e);
    color-le = λ x m e. cols x m (store-cases a x l' m g.heap e);
  }
    where
      found :
          (p x : ℕ)
          → (m : Lock) × (g.heap x ≡ some m) × (m.ptr ≡ p)
          → (m : Lock) × (store a l' g.heap x ≡ some m) × (m.ptr ≡ p)
      found p x (m, f, q) = elim (ℕ_discrete a x) [
        | yes e ↦ (l', rw e (store_self x l' g.heap), ground (arith, at, f, q, own, e))
        | no n ↦ (m, store_ne a x l' g.heap n ∙ f, q)
      ]

      lives :
          (x : ℕ) (m : Lock)
          → ((x ≡ a) × (m ≡ l')) ⊎ ((a ≢ x) × (g.heap x ≡ some m))
          → T.find m.ptr g.tree ≡ some x
      lives x m (inl (e, f)) = rw (e, f, own) (w.live-find a l at)
      lives x m (inr (n, f)) = w.live-find x m f

      still :
          (b : ℕ) → (m : Lock) × (g.heap b ≡ some m) → (m : Lock) × (store a l' g.heap b ≡ some m)
      still b (m, f) = elim (ℕ_discrete a b) [
        | yes e ↦ (l', rw e (store_self b l' g.heap))
        | no n ↦ (m, store_ne a b l' g.heap n ∙ f)
      ]

      entries :
          (x : ℕ) (m : Lock) (b : ℕ)
          → In b m.before
          → ((x ≡ a) × (m ≡ l')) ⊎ ((a ≢ x) × (g.heap x ≡ some m))
          → (n : Lock) × (g.heap b ≡ some n)
      entries x m b k (inl (e, f)) = live b (rw f at k)
      entries x m b k (inr (n, f)) = w.before-live x m f b k

      sorts :
          (x : ℕ) (m : Lock)
          → ((x ≡ a) × (m ≡ l')) ⊎ ((a ≢ x) × (g.heap x ≡ some m))
          → IsSorted m.before
      sorts x m (inl (e, f)) = rw f sorted
      sorts x m (inr (n, f)) = w.before-IsSorted x m f

      cols :
          (x : ℕ) (m : Lock)
          → ((x ≡ a) × (m ≡ l')) ⊎ ((a ≢ x) × (g.heap x ≡ some m))
          → m.color ≤ g.color
      cols x m (inl (e, f)) = rw f col
      cols x m (inr (n, f)) = w.color-le x m f
