-- ===== src/Cond/Contract.antt =====
-- The functions on condition variables meet their contract.
use lksmith.Base.{
  ℕ, ◌+◌, ◌%◌, ◌^◌, ◌<◌, ◌≡◌, refl, sym, ◌∙◌, ◌≢◌, ◌↔◌, ◌⊎◌, inl, inr, true, false, [], ◌∷◌, none,
  some, arith, ◌==◌, if◌then◌else◌, ==_refl, ==_ne, Option-cases, Bool-cases,
}
use lksmith.Code.{Code, ok, err, einval}
use lksmith.Lock.{store}
use lksmith.Graph.Update.{store_self, store_ne, store-cases}
use lksmith.Tree.{TreeLib}
use lksmith.Report.{Report}
use lksmith.Cond.{Cond, Conds, Waits, wait_on}
use lksmith.Cond.Laws.{
  Waiting, waiting_of, join, waiting, IsWf, store-IsWf, store-waiting, store-waiting_ne,
}

module _ (T : TreeLib) where
  -- A call of lksmith_cond_prewait as its contract wants it.
  pub record Joined (s : Conds T) (cond mutex : ℕ) (r : Waits T) : Type 0 where
    pub wf : IsWf T r.conds
    pub refines :
        ◌≡◌ {A = Code × Waiting} (r.code, waiting T r.conds cond) (join mutex (waiting T s cond))
    pub frame : (p : ℕ) → p ≢ cond → waiting T r.conds p ≡ waiting T s p
    pub out : r.code ≡ ok → (a : ℕ) × (r.out ≡ some a) × (T.find cond r.conds.tree ≡ some a)
    pub logged : (r.log ≡ []) ↔ (r.code ≡ ok)

  pub waiting-live :
      (s : Conds T) (a : ℕ) (c : Cond)
      → IsWf T s
      → s.heap a ≡ some c
      → waiting T s c.ptr ≡ waiting_of c
  waiting-live s a c w f = rw (w.live-find a c f, f)

  -- One more waiter with the mutex, on a structure that is idle or in use with that mutex.
  module _ (s : Conds T) (a : ℕ) (c : Cond) (mutex : ℕ) (w : IsWf T s) (at : s.heap a ≡ some c)
      (real : mutex ≢ 0) where
    entered :
        (c' : Cond)
        → c'.ptr ≡ c.ptr
        → c'.lock ≡ mutex
        → c'.refcnt ≡ c.refcnt + 1
        → (c.lock ≡ 0) ⊎ (c.lock ≡ mutex)
        → Joined s c.ptr mutex (record {
          code = ok;
          out = some a;
          conds = record s { heap = store a c' s.heap };
          log = [];
        })
    entered c' own lock count prior =
        let idle' : (c'.lock ≡ 0) ↔ (c'.refcnt ≡ 0) =
          (λ e. absurd (real (sym lock ∙ e)), λ e. absurd (omega arith)) in
        record {
          wf = store-IsWf T s a c c' w at own idle';
          refines = rw (store-waiting T s a c c' w at own idle', waiting-live s a c w at) counted;
          frame = λ p ne. store-waiting_ne T s a c c' w at own idle' p ne;
          out = λ e. (a, refl, w.live-find a c at);
          logged = (λ e. refl, λ e. refl);
        }
      where
        counted : ◌≡◌ {A = Code × Waiting} (ok, waiting_of c') (join mutex (waiting_of c))
        counted = ground (arith, (w.idle a c at).0, (w.idle a c at).1)

    refused :
        (r : Report)
        → c.lock ≢ 0
        → c.lock ≢ mutex
        → Joined s c.ptr mutex (record { code = err einval; out = none; conds = s; log = r ∷ [] })
    refused r used other = record {
      wf = w;
      refines = rw (waiting-live s a c w at) counted;
      frame = λ p ne. refl;
      out = λ e. cc;
      logged = (λ e. cc, λ e. cc);
    }
      where
        counted : ◌≡◌ {A = Code × Waiting} (err einval, waiting_of c) (join mutex (waiting_of c))
        counted = ground (arith, (w.idle a c at).0, (w.idle a c at).1)

    pub wait_on-Joined : c.refcnt + 1 < 2 ^ 64 → Joined s c.ptr mutex (wait_on T c.ptr mutex a s c)
    unfolding wait_on
    wait_on-Joined small = elim (Bool-cases (c.lock == 0)) [
      | inl free ↦ rw free (
          entered (record c { lock = mutex; refcnt = (c.refcnt + 1) % 2 ^ 64 }) refl refl
            (omega arith) (inl (ground arith)))
      | inr used ↦ rw used (elim (Bool-cases (c.lock == mutex)) [
        | inl same ↦ rw same (
            entered (record c { refcnt = (c.refcnt + 1) % 2 ^ 64 }) refl (ground arith)
              (omega arith) (inr (ground arith)))
        | inr other ↦ rw other (refused _ (ground arith) (ground arith))
      ])
    ]

  -- The state after lksmith_cond_insert of a fresh structure for an unknown condition variable.
  module _ (s : Conds T) (cond a : ℕ) (w : IsWf T s) (unknown : T.find cond s.tree ≡ none)
      (fresh : s.heap a ≡ none) where
    abbrev pub blank : Cond
    blank = record { ptr = cond; lock = 0; refcnt = 0 }

    abbrev pub grown : Conds T
    grown = record { tree = (T.insert cond a s.tree).1; heap = store a blank s.heap }

    pub find-grown : (p : ℕ) → T.find p grown.tree ≡ (if cond == p then some a else T.find p s.tree)
    find-grown p = T.find-insert cond a p s.tree unknown

    pub grown-IsWf : IsWf T grown
    grown-IsWf = record {
      find-live = λ p x e. found p x (Bool-cases (cond == p)) e;
      live-find = λ x m e. lives x m (store-cases a x blank m s.heap e);
      idle = λ x m e. idles x m (store-cases a x blank m s.heap e);
    }
      where
        found :
            (p x : ℕ)
            → ((cond == p) ≡ true) ⊎ ((cond == p) ≡ false)
            → T.find p grown.tree ≡ some x
            → (m : Cond) × (store a blank s.heap x ≡ some m) × (m.ptr ≡ p)
        found p x (inl same) e =
            let here : some a ≡ some x = sym (find-grown p ∙ (rw same)) ∙ e in
            let ax : a ≡ x = cc here in (blank, rw (← ax) (store_self a blank s.heap), ground arith)
        found p x (inr other) e =
            let there : T.find p s.tree ≡ some x = sym (find-grown p ∙ (rw other)) ∙ e in
            let (m, f, q) = w.find-live p x there in
            (m, store_ne a x blank s.heap (λ ax. cc (fresh, f, ax)) ∙ f, q)

        lives :
            (x : ℕ) (m : Cond)
            → ((x ≡ a) × (m ≡ blank)) ⊎ ((a ≢ x) × (s.heap x ≡ some m))
            → T.find m.ptr grown.tree ≡ some x
        lives x m (inl (e, f)) = rw (e, f, find-grown cond) (rw (==_refl cond))
        lives x m (inr (n, f)) =
            let old = w.live-find x m f in
            let other : cond ≢ m.ptr = λ e. cc (unknown, old, e) in
            rw (find-grown m.ptr, ==_ne cond m.ptr other) old

        idles :
            (x : ℕ) (m : Cond)
            → ((x ≡ a) × (m ≡ blank)) ⊎ ((a ≢ x) × (s.heap x ≡ some m))
            → (m.lock ≡ 0) ↔ (m.refcnt ≡ 0)
        idles x m (inl (e, f)) = rw f (λ z. refl, λ z. refl)
        idles x m (inr (n, f)) = w.idle x m f

    -- It is waited on by nobody, and nobody else notices.
    pub grown-waiting : (p : ℕ) → waiting T grown p ≡ waiting T s p
    grown-waiting p = elim (Bool-cases (cond == p)) [
      | inl same ↦
          let e : cond ≡ p = ground arith in
          rw (find-grown p, same, store_self a blank s.heap, ← e, unknown)
      | inr other ↦
          rw (find-grown p, other)
            (elim (Option-cases (T.find p s.tree)) [
              | inl e ↦ rw e
              | inr (x, e) ↦
                  let (m, f, q) = w.find-live p x e in
                  rw (e, store_ne a x blank s.heap (λ ax. cc (fresh, f, ax)))
            ])
    ]
