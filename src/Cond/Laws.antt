-- ===== src/Cond/Laws.antt =====
-- Condition variables against their contract: each is idle, or waited on with one mutex by a number
-- of threads.
use lksmith.Base.{
  ℕ, ◌+◌, ◌-◌, ◌≡◌, sym, ◌∙◌, ◌≢◌, ◌↔◌, ◌⊎◌, inl, inr, Option, none, some, arith, ◌==◌,
  if◌then◌else◌, ℕ_discrete, Option-cases,
}
use lksmith.Code.{Code, ok, err, einval}
use lksmith.Lock.{store}
use lksmith.Graph.Update.{store_self, store_ne, store-cases}
use lksmith.Tree.{TreeLib}
use lksmith.Cond.{Cond, Conds}

-- The mutex in use and the number of waiters, `none` if nobody waits.
abbrev pub Waiting : Type 0
Waiting = Option (ℕ × ℕ)

abbrev pub waiting_of : Cond → Waiting
waiting_of c = if c.refcnt == 0 then none else some (c.lock, c.refcnt)

abbrev pub describe : Option Cond → Waiting
describe none = none
describe (some c) = waiting_of c

-- The contract of a wait with a mutex: its code, and who waits then.
abbrev pub join : ℕ → Waiting → Code × Waiting
join mutex none = (ok, some (mutex, 1))
join mutex (some (m, n)) = if m == mutex then (ok, some (m, n + 1)) else (err einval, some (m, n))

-- The contract of the end of a wait.
abbrev pub leave : Waiting → Waiting
leave none = none
leave (some (m, n)) = if n == 1 then none else some (m, n - 1)

module _ (T : TreeLib) where
  abbrev pub cond_at : Conds T → Option ℕ → Option Cond
  cond_at s none = none
  cond_at s (some a) = s.heap a

  -- Who waits on the condition variable with a pointer.
  abbrev pub waiting : Conds T → ℕ → Waiting
  waiting s p = describe (cond_at s (T.find p s.tree))

  -- The tree and the heap have the same structures, and one has a mutex exactly while it is in use.
  pub record IsWf (s : Conds T) : Type 0 where
    pub find-live :
        (p a : ℕ) → T.find p s.tree ≡ some a → (c : Cond) × (s.heap a ≡ some c) × (c.ptr ≡ p)
    pub live-find : (a : ℕ) (c : Cond) → s.heap a ≡ some c → T.find c.ptr s.tree ≡ some a
    pub idle : (a : ℕ) (c : Cond) → s.heap a ≡ some c → (c.lock ≡ 0) ↔ (c.refcnt ≡ 0)

  waiting-live :
      (s : Conds T) (a : ℕ) (c : Cond) (p : ℕ)
      → T.find p s.tree ≡ some a
      → s.heap a ≡ some c
      → waiting s p ≡ waiting_of c
  waiting-live s a c p e f = rw (e, f)

  -- A write into a live structure is seen at its own pointer only.
  module _ (s : Conds T) (a : ℕ) (c c' : Cond) (w : IsWf s) (at : s.heap a ≡ some c)
      (own : c'.ptr ≡ c.ptr) (idle' : (c'.lock ≡ 0) ↔ (c'.refcnt ≡ 0)) where
    pub store-IsWf : IsWf (record s { heap = store a c' s.heap })
    store-IsWf = record {
      find-live = λ p x e. found p x (w.find-live p x e);
      live-find = λ x m e. lives x m (store-cases a x c' m s.heap e);
      idle = λ x m e. idles x m (store-cases a x c' m s.heap e);
    }
      where
        found :
            (p x : ℕ)
            → (m : Cond) × (s.heap x ≡ some m) × (m.ptr ≡ p)
            → (m : Cond) × (store a c' s.heap x ≡ some m) × (m.ptr ≡ p)
        found p x (m, f, q) = elim (ℕ_discrete a x) [
          | yes e ↦ (c', rw e (store_self x c' s.heap), ground (arith, at, f, q, own, e))
          | no n ↦ (m, store_ne a x c' s.heap n ∙ f, q)
        ]

        lives :
            (x : ℕ) (m : Cond)
            → ((x ≡ a) × (m ≡ c')) ⊎ ((a ≢ x) × (s.heap x ≡ some m))
            → T.find m.ptr s.tree ≡ some x
        lives x m (inl (e, f)) = rw (e, f, own) (w.live-find a c at)
        lives x m (inr (n, f)) = w.live-find x m f

        idles :
            (x : ℕ) (m : Cond)
            → ((x ≡ a) × (m ≡ c')) ⊎ ((a ≢ x) × (s.heap x ≡ some m))
            → (m.lock ≡ 0) ↔ (m.refcnt ≡ 0)
        idles x m (inl (e, f)) = rw f idle'
        idles x m (inr (n, f)) = w.idle x m f

    pub store-waiting : waiting (record s { heap = store a c' s.heap }) c.ptr ≡ waiting_of c'
    store-waiting = rw (w.live-find a c at, store_self a c' s.heap)

    pub store-waiting_ne :
        (p : ℕ) → p ≢ c.ptr → waiting (record s { heap = store a c' s.heap }) p ≡ waiting s p
    store-waiting_ne p ne = elim (Option-cases (T.find p s.tree)) [
      | inl e ↦ rw e
      | inr (x, e) ↦
          let (m, f, q) = w.find-live p x e in
          let other : a ≢ x =
            λ same. let k : some m ≡ some c = sym f ∙ (rw same at at) in ne (cc (k, q)) in
          rw (e, store_ne a x c' s.heap other)
    ]
