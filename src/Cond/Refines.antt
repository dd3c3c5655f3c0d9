-- ===== src/Cond/Refines.antt =====
-- lksmith_cond_prewait, lksmith_cond_postwait and the search of lksmith_cond_predestroy.
use lksmith.Base.{
  ℕ, ◌+◌, ◌-◌, ◌%◌, ◌^◌, ◌<◌, ◌≡◌, refl, sym, ap, subst, ◌∙◌, ◌≢◌, ◌↔◌, ◌⊎◌, inl, inr, List, [],
  ◌∷◌, none, some, arith, ◌==◌, if◌then◌else◌, done, ==_refl, Option-cases, Bool-cases,
}
use lksmith.Code.{Code, ok, err, einval, enomem}
use lksmith.Lock.{store}
use lksmith.Graph.Update.{store_self}
use lksmith.Tree.{TreeLib}
use lksmith.Report.{Report, cond_insert_failed, cond_in_use}
use lksmith.Cond.{
  Cond, Conds, Waits, wait_on, wait_at, lksmith_cond_prewait, lksmith_cond_postwait, cond_unused,
}
use lksmith.Cond.Laws.{join, leave, waiting, IsWf, store-IsWf, store-waiting, store-waiting_ne}
use lksmith.Cond.Contract.{
  Joined, waiting-live, wait_on-Joined, grown, find-grown, grown-IsWf, grown-waiting,
}

module _ (T : TreeLib) where
  pub Joined-at :
      (s : Conds T) (cond mutex a : ℕ)
      → IsWf T s
      → mutex ≢ 0
      → T.find cond s.tree ≡ some a
      → ((c : Cond) → s.heap a ≡ some c → c.refcnt + 1 < 2 ^ 64)
      → (r : Waits T) × (wait_at T cond mutex a s ≡ done r) × Joined T s cond mutex r
  unfolding wait_at
  Joined-at s cond mutex a w real e small =
      let (c, at, own) = w.find-live cond a e in
      rw (at, wait_at)
        (
          wait_on T cond mutex a s c,
          refl,
          subst (λ q. Joined T s q mutex (wait_on T q mutex a s c)) own
              (wait_on-Joined T s a c mutex w at real (small c at)),
        )

  -- With the structures in order, a mutex that is not null, reference counts that do not wrap and, if
  -- the condition variable is unknown, memory at an unused address: lksmith_cond_prewait returns; its
  -- code and who then waits are those of the contract `join` (one more waiter with 0 if nobody or
  -- somebody with the same mutex waits, EINVAL and no change for another mutex); no other condition
  -- variable is touched; with 0 it sets `*out` to the structure; and it logs exactly when it fails.
  pub prewait-Joined :
      (s : Conds T) (cond mutex a : ℕ)
      → IsWf T s
      → mutex ≢ 0
      → ((b : ℕ) (c : Cond) → s.heap b ≡ some c → c.refcnt + 1 < 2 ^ 64)
      → s.heap a ≡ none
      → (r : Waits T) × (lksmith_cond_prewait T (some a) cond mutex s ≡ done r)
        × Joined T s cond mutex r
  unfolding lksmith_cond_prewait
  prewait-Joined s cond mutex a w real small fresh = elim (Option-cases (T.find cond s.tree)) [
    | inr (b, e) ↦
        rw (e, lksmith_cond_prewait) (Joined-at s cond mutex b w real e (λ c f. small b c f))
    | inl e ↦
        let there : T.find cond (grown T s cond a w e fresh).tree ≡ some a =
          rw (find-grown T s cond a w e fresh cond) (rw (==_refl cond)) in
        let absent : (T.insert cond a s.tree).0 ≡ none = T.insert-find cond a s.tree ∙ e in
        let (r, run, p) =
          Joined-at (grown T s cond a w e fresh) cond mutex a (grown-IsWf T s cond a w e fresh) real
            there (λ c f. few c f) in
        rw (e, lksmith_cond_prewait, absent)
          (
            r,
            run,
            record {
              wf = p.wf;
              refines = p.refines ∙ ap (join mutex) (grown-waiting T s cond a w e fresh cond);
              frame = λ q ne. p.frame q ne ∙ grown-waiting T s cond a w e fresh q;
              out = p.out;
              logged = p.logged;
            },
          )
  ]
    where
      few :
          (c : Cond)
          → store a (record { ptr = cond; lock = 0; refcnt = 0 }) s.heap a ≡ some c
          → c.refcnt + 1 < 2 ^ 64
      few c f =
          let same = sym (store_self a (record { ptr = cond; lock = 0; refcnt = 0 }) s.heap) ∙ f in
          let none_yet : c.refcnt ≡ 0 = cc same in omega arith

  -- Without memory for an unknown condition variable, lksmith_cond_prewait fails with ENOMEM and
  -- changes nothing.
  pub prewait_no_memory :
      (s : Conds T) (cond mutex : ℕ)
      → T.find cond s.tree ≡ none
      → (r : Waits T) × (lksmith_cond_prewait T none cond mutex s ≡ done r)
        × (r.code ≡ err enomem)
        × (r.out ≡ none)
        × (r.conds ≡ s)
  unfolding lksmith_cond_prewait
  prewait_no_memory s cond mutex e = (
    record {
      code = err enomem;
      out = none;
      conds = s;
      log = record { code = enomem; message = cond_insert_failed cond mutex } ∷ [];
    },
    rw (e, lksmith_cond_prewait),
    refl,
    refl,
    refl,
  )

  -- The end of a wait on a structure that is in use: lksmith_cond_postwait returns, takes one waiter
  -- off as the contract `leave` says (the mutex is forgotten with the last one), and touches no other
  -- condition variable.
  pub postwait-leave :
      (s : Conds T) (cnd : ℕ) (c : Cond)
      → IsWf T s
      → s.heap cnd ≡ some c
      → c.refcnt ≢ 0
      → c.refcnt < 2 ^ 64
      → (s' : Conds T) × (lksmith_cond_postwait T cnd s ≡ done s')
        × IsWf T s'
        × (waiting T s' c.ptr ≡ leave (waiting T s c.ptr))
        × ((p : ℕ) → p ≢ c.ptr → waiting T s' p ≡ waiting T s p)
  unfolding lksmith_cond_postwait
  postwait-leave s cnd c w at used small =
      let n = (c.refcnt + 2 ^ 64 - 1) % 2 ^ 64 in
      let pred_n : n + 1 ≡ c.refcnt = omega arith in
      let c' : Cond = record c { refcnt = n; lock = if n == 0 then 0 else c.lock } in
      let held : c.lock ≢ 0 = λ e. used ((w.idle cnd c at).0 e) in
      let idle : (c'.lock ≡ 0) ↔ (n ≡ 0) = ground arith in
      (
        record s { heap = store cnd c' s.heap },
        rw (at, lksmith_cond_postwait),
        store-IsWf T s cnd c c' w at refl idle,
        rw (store-waiting T s cnd c c' w at refl idle, waiting-live T s cnd c w at) (ground arith),
        λ p ne. store-waiting_ne T s cnd c c' w at refl idle p ne,
      )

  -- The search of lksmith_cond_predestroy returns; it accepts a condition variable exactly when nobody waits on it,
  -- and otherwise fails with EINVAL; it logs exactly when it fails.
  pub cond_unused_iff :
      (s : Conds T) (cond : ℕ)
      → IsWf T s
      → (code : Code) × (log : List Report) × (cond_unused T cond s ≡ done (code, log))
        × ((waiting T s cond ≡ none) × (code ≡ ok) × (log ≡ [])
            ⊎ (waiting T s cond ≢ none)
              × (code ≡ err einval)
              × (log ≡ record { code = einval; message = cond_in_use cond } ∷ []))
  unfolding cond_unused
  cond_unused_iff s cond w = elim (Option-cases (T.find cond s.tree)) [
    | inl e ↦ rw (e, cond_unused) (ok, [], refl, inl (refl, refl, refl))
    | inr (a, e) ↦
        let (c, at, own) = w.find-live cond a e in
        rw (e, cond_unused, at)
          (elim (Bool-cases (c.refcnt == 0)) [
            | inl z ↦ rw z (ok, [], refl, inl (refl, refl, refl))
            | inr n ↦ rw n (
              err einval,
              record { code = einval; message = cond_in_use cond } ∷ [],
              refl,
              inr (λ f. cc, refl, refl),
            )
          ])
  ]
