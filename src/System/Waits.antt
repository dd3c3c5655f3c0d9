-- ===== src/System/Waits.antt =====
-- The calls on condition variables keep the invariant.
use lksmith.Base.{
  ℕ, suc, ◌+◌, ◌-◌, ◌%◌, ◌^◌, ◌<◌, ◌≤◌, ◌≡◌, refl, ◌∙◌, ◌≢◌, ◌⊎◌, inl, inr, List, [], Option, none,
  some, arith, Ensures, Outcome, done, Option-cases, if_either, if◌then◌else◌, ◌==◌, ==_refl,
}
use lksmith.Code.{Code}
use lksmith.Lock.{store}
use lksmith.Tree.{TreeLib}
use lksmith.Graph.Update.{store-cases}
use lksmith.Report.{Report}
use lksmith.Cond.{
  Cond, Conds, Waits, wait_on, wait_at, wait_new, lksmith_cond_insert, cond_inserted,
  lksmith_cond_find, lksmith_cond_prewait, lksmith_cond_postwait, cond_refcnt, cond_unused,
}
use lksmith.Cond.Laws.{IsWf}
use lksmith.Cond.Contract.{grown, find-grown, grown-IsWf}
use lksmith.Cond.Refines.{Joined-at, postwait-leave}
use lksmith.Depends.Round.{inversions}
use lksmith.System.{Unused}

module _ (T : TreeLib) where
  -- The reference counts are at most `n`.
  abbrev pub Counts : ℕ → Conds T → Type 0
  Counts n s = (a : ℕ) (c : Cond) → s.heap a ≡ some c → c.refcnt ≤ n

  Counts-store :
      (n a : ℕ) (c' : Cond) (s : Conds T)
      → Counts n s
      → c'.refcnt ≤ n
      → Counts n (record s { heap = store a c' s.heap })
  Counts-store n a c' s k small x c e = pick (store-cases a x c' c s.heap e)
    where
      pick : ((x ≡ a) × (c ≡ c')) ⊎ ((a ≢ x) × (s.heap x ≡ some c)) → c.refcnt ≤ n
      pick (inl (p, q)) = rw q small
      pick (inr (ne, f)) = k x c f

  Counts-more : (n : ℕ) (s : Conds T) → Counts n s → Counts (suc n) s
  Counts-more n s k a c e = let j = k a c e in omega arith

  -- What a wait leaves.
  pub record Waited (n : ℕ) (r : Waits T) : Type 0 where
    pub wf : IsWf T r.conds
    pub counts : Counts (suc n) r.conds
    pub quiet : inversions r.log ≡ []

  wait_on-Counts :
      (n cond mutex a : ℕ) (s : Conds T) (c : Cond)
      → Counts n s
      → s.heap a ≡ some c
      → Counts (suc n) (wait_on T cond mutex a s c).conds
        × (inversions (wait_on T cond mutex a s c).log ≡ [])
  unfolding wait_on
  wait_on-Counts n cond mutex a s c k at =
      let small : (c.refcnt + 1) % 2 ^ 64 ≤ suc n = let j = k a c at in omega arith in
      let P : Waits T → Type 0 = λ r. Counts (suc n) r.conds × (inversions r.log ≡ []) in
      if_either P (c.lock == 0) _ _ (Counts-store (suc n) a _ s (Counts-more n s k) small, refl)
        (if_either P (c.lock == mutex) _ _
          (Counts-store (suc n) a _ s (Counts-more n s k) small, refl) (Counts-more n s k, refl))

  wait_at-Waited :
      (n cond mutex a : ℕ) (s : Conds T)
      → IsWf T s
      → Counts n s
      → n + 1 < 2 ^ 64
      → mutex ≢ 0
      → T.find cond s.tree ≡ some a
      → Ensures (Waited n) (wait_at T cond mutex a s)
  unfolding wait_at
  wait_at-Waited n cond mutex a s w k small real e =
      let (c, at, own) = w.find-live cond a e in
      let (r, run, p) =
        Joined-at T s cond mutex a w real e (λ d f. let j = k a d f in omega arith) in
      let here : wait_at T cond mutex a s ≡ done (wait_on T cond mutex a s c) = rw (wait_at, at) in
      let same : r ≡ wait_on T cond mutex a s c = cc (run, here) in
      let (counts, quiet) = wait_on-Counts n cond mutex a s c k at in
      rw here (record { wf = rw (← same) p.wf; counts = counts; quiet = quiet })

  pub prewait-Waited :
      (n : ℕ) (memory : Option ℕ) (cond mutex : ℕ) (s : Conds T)
      → IsWf T s
      → Counts n s
      → n + 1 < 2 ^ 64
      → mutex ≢ 0
      → Unused s.heap memory
      → Ensures (Waited n) (lksmith_cond_prewait T memory cond mutex s)
  unfolding lksmith_cond_prewait lksmith_cond_find lksmith_cond_insert wait_new cond_inserted
  prewait-Waited n memory cond mutex s w k small real free =
      elim (Option-cases (T.find cond s.tree)) [
        | inr (a, e) ↦
            rw (lksmith_cond_prewait, e) (wait_at-Waited n cond mutex a s w k small real e)
        | inl e ↦ rw (lksmith_cond_prewait, e) (unknown memory free e)
      ]
    where
      unknown :
          (m : Option ℕ)
          → Unused s.heap m
          → T.find cond s.tree ≡ none
          → Ensures (Waited n) (wait_new T cond mutex (lksmith_cond_insert T m cond s))
      unknown none u e = record { wf = w; counts = Counts-more n s k; quiet = refl }
      unknown (some a) u e =
          let g = grown T s cond a w e u in
          let absent : (T.insert cond a s.tree).0 ≡ none = T.insert-find cond a s.tree ∙ e in
          let there : T.find cond g.tree ≡ some a =
            find-grown T s cond a w e u cond ∙ (rw (==_refl cond)) in
          let new : Cond = record { ptr = cond; lock = 0; refcnt = 0 } in
          rw absent (
            wait_at-Waited n cond mutex a g (grown-IsWf T s cond a w e u)
              (Counts-store n a new s k (omega arith)) small real there)

  pub postwait-Kept :
      (n cnd : ℕ) (s : Conds T)
      → IsWf T s
      → Counts n s
      → n + 1 < 2 ^ 64
      → (c : Cond) × (s.heap cnd ≡ some c) × (c.refcnt ≢ 0)
      → Ensures (λ u. IsWf T u × Counts n u) (lksmith_cond_postwait T cnd s)
  unfolding lksmith_cond_postwait
  postwait-Kept n cnd s w k small (c, at, used) =
      let few : c.refcnt < 2 ^ 64 = let j = k cnd c at in omega arith in
      let (u, run, wf, _, _) = postwait-leave T s cnd c w at used few in
      let c' : Cond =
        let refcnt = (c.refcnt + 2 ^ 64 - 1) % 2 ^ 64 in
        record c { refcnt = refcnt; lock = if refcnt == 0 then 0 else c.lock } in
      let here : lksmith_cond_postwait T cnd s ≡ done (record s { heap = store cnd c' s.heap }) =
        rw (lksmith_cond_postwait, at) in
      let same : u ≡ record s { heap = store cnd c' s.heap } = cc (run, here) in
      rw here
        (rw (← same) wf, Counts-store n cnd c' s k (let j = k cnd c at in omega (arith, used)))

  pub predestroy-quiet :
      (cond : ℕ) (s : Conds T)
      → IsWf T s
      → Ensures (λ r. inversions r.1 ≡ []) (cond_unused T cond s)
  unfolding cond_unused lksmith_cond_find cond_refcnt
  predestroy-quiet cond s w = elim (Option-cases (T.find cond s.tree)) [
    | inl e ↦ rw (cond_unused, e) refl
    | inr (a, e) ↦
        let (c, at, own) = w.find-live cond a e in
        rw (cond_unused, e, at)
          (if_either {A = Outcome (Code × List Report)} (Ensures (λ r. inversions r.1 ≡ []))
            (c.refcnt == 0) _ _ refl refl)
  ]
