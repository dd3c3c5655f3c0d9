-- ===== src/Graph/Insert.antt =====
-- lksmith_insert on a well-formed graph.
use lksmith.Base.{
  ℕ, ◌≡◌, refl, sym, ◌∙◌, ◌≢◌, ◌⊎◌, inl, inr, Bool, true, false, ◌≤◌, none, some, arith, ◌==◌, In,
  if◌then◌else◌, ==_refl, ==_ne, Bool-cases,
}
use lksmith.Code.{ok, err, enomem, eexist}
use lksmith.Lock.{Lock, store}
use lksmith.Sorted.Laws.{IsSorted}
use lksmith.Tree.{TreeLib}
use lksmith.Graph.{Graph, IsWf, new_lock, inserted, lksmith_insert}
use lksmith.Graph.Update.{store_self, store_ne, store-cases}

module _ (T : TreeLib) where
  module _ (g : Graph T) (ptr a : ℕ) (recursive sleeper : Bool) (w : IsWf T g)
      (unknown : T.find ptr g.tree ≡ none) (fresh : g.heap a ≡ none) where
    abbrev new : Lock
    unfolding new_lock
    new = new_lock ptr recursive sleeper

    abbrev grown : Graph T
    grown = record g {
      tree = (T.insert ptr a g.tree).1;
      heap = store a (new_lock ptr recursive sleeper) g.heap;
    }

    find-grown : (p : ℕ) → T.find p grown.tree ≡ (if ptr == p then some a else T.find p g.tree)
    find-grown p = T.find-insert ptr a p g.tree unknown

    grown-IsWf : IsWf T grown
    unfolding new_lock
    grown-IsWf = record {
      find-live = λ p x e. found p x (Bool-cases (ptr == p)) e;
      live-find = λ x m e. lives x m (store-cases a x (new_lock ptr recursive sleeper) m g.heap e);
      before-live = λ x m e b k.
          still b (entries x m b k (store-cases a x (new_lock ptr recursive sleeper) m g.heap e));
      before-IsSorted =
          λ x m e. sorts x m (store-cases a x (new_lock ptr recursive sleeper) m g.heap e);
      color-le = λ x m e. cols x m (store-cases a x (new_lock ptr recursive sleeper) m g.heap e);
    }
      where
        found :
            (p x : ℕ)
            → ((ptr == p) ≡ true) ⊎ ((ptr == p) ≡ false)
            → T.find p grown.tree ≡ some x
            → (m : Lock) × (grown.heap x ≡ some m) × (m.ptr ≡ p)
        found p x (inl same) e =
            let here : some a ≡ some x = sym (find-grown p ∙ (rw same)) ∙ e in
            let ax : a ≡ x = cc here in
            (new_lock ptr recursive sleeper, rw (← ax) (store_self a _ g.heap), ground arith)
        found p x (inr other) e =
            let there : T.find p g.tree ≡ some x = sym (find-grown p ∙ (rw other)) ∙ e in
            let (m, f, q) = w.find-live p x there in
            (m, store_ne a x _ g.heap (λ ax. cc (fresh, f, ax)) ∙ f, q)

        lives :
            (x : ℕ) (m : Lock)
            → ((x ≡ a) × (m ≡ new_lock ptr recursive sleeper)) ⊎ ((a ≢ x) × (g.heap x ≡ some m))
            → T.find m.ptr grown.tree ≡ some x
        lives x m (inl (e, f)) = rw (e, f, find-grown ptr) (rw (==_refl ptr))
        lives x m (inr (n, f)) =
            let old = w.live-find x m f in
            let other : ptr ≢ m.ptr = λ e. cc (unknown, old, e) in
            rw (find-grown m.ptr, ==_ne ptr m.ptr other) old

        entries :
            (x : ℕ) (m : Lock) (b : ℕ)
            → In b m.before
            → ((x ≡ a) × (m ≡ new_lock ptr recursive sleeper)) ⊎ ((a ≢ x) × (g.heap x ≡ some m))
            → (n : Lock) × (g.heap b ≡ some n)
        entries x m b k (inl (e, f)) = absurd (rw f at k)
        entries x m b k (inr (n, f)) = w.before-live x m f b k

        still : (b : ℕ) → (n : Lock) × (g.heap b ≡ some n) → (n : Lock) × (grown.heap b ≡ some n)
        still b (n, f) = (n, store_ne a b _ g.heap (λ ab. cc (fresh, f, ab)) ∙ f)

        sorts :
            (x : ℕ) (m : Lock)
            → ((x ≡ a) × (m ≡ new_lock ptr recursive sleeper)) ⊎ ((a ≢ x) × (g.heap x ≡ some m))
            → IsSorted m.before
        sorts x m (inl (e, f)) = rw f tt
        sorts x m (inr (n, f)) = w.before-IsSorted x m f

        cols :
            (x : ℕ) (m : Lock)
            → ((x ≡ a) × (m ≡ new_lock ptr recursive sleeper)) ⊎ ((a ≢ x) × (g.heap x ≡ some m))
            → m.color ≤ g.color
        cols x m (inl (e, f)) = rw f (omega arith)
        cols x m (inr (n, f)) = w.color-le x m f

    -- Inserting an unknown lock at an unused address returns 0 and the address, and keeps the graph
    -- well-formed: the lock is found there, nobody holds it and nothing comes before it, and every
    -- other lock is as it was.
    pub lksmith_insert-IsWf :
        let (code, out, g') = lksmith_insert T (some a) ptr recursive sleeper g in
        (code ≡ ok)
        × (out ≡ some a)
        × IsWf T g'
        × (g'.heap a ≡ some (new_lock ptr recursive sleeper))
        × ((p : ℕ) → T.find p g'.tree ≡ (if ptr == p then some a else T.find p g.tree))
        × ((x : ℕ) → a ≢ x → g'.heap x ≡ g.heap x)
    unfolding lksmith_insert inserted
    lksmith_insert-IsWf =
        rw (T.insert-find ptr a g.tree, unknown)
          (
            refl,
            refl,
            grown-IsWf,
            store_self a _ g.heap,
            find-grown,
            λ x ne. store_ne a x _ g.heap ne,
          )

  -- Inserting a known lock returns EEXIST, and inserting without memory ENOMEM; both leave the tree,
  -- the heap and the colour counter as they are.
  pub lksmith_insert-err :
      (g : Graph T) (ptr a b : ℕ) (recursive sleeper : Bool)
      → T.find ptr g.tree ≡ some b
      → (lksmith_insert T (some a) ptr recursive sleeper g ≡ (err eexist, none, g))
        × (lksmith_insert T none ptr recursive sleeper g ≡ (err enomem, none, g))
  unfolding lksmith_insert inserted
  lksmith_insert-err g ptr a b recursive sleeper e =
      (rw (T.insert-find ptr a g.tree, e, T.insert-present ptr a b g.tree e), refl)
