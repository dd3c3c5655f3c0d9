-- ===== src/Handler/Sleeping.antt =====
-- pthread_cond_wait and pthread_cond_timedwait from beginning to end.
use lksmith.Base.{
  ℕ, ◌+◌, ◌^◌, ◌<◌, ◌≡◌, refl, sym, ap, ◌∙◌, ◌≢◌, ◌⊎◌, inl, inr, true, false, [], ◌∷◌, ◌++◌, none,
  some, arith, ◌==◌, if◌then◌else◌, Bool-cases, Option-cases, if_either, ==_ne, Outcome, done,
}
use lksmith.Code.{ok, err, minus_one, einval, eperm}
use lksmith.Tree.{TreeLib}
use lksmith.Ignore.{TextLib}
use lksmith.Held.{tls_contains_lid}
use lksmith.Report.{cond_not_locked}
use lksmith.Cond.{Cond, Conds, Waits, lksmith_cond_prewait, lksmith_cond_postwait}
use lksmith.Cond.Laws.{Waiting, waiting_of, join, leave, waiting, IsWf}
use lksmith.Cond.Contract.{Joined, waiting-live}
use lksmith.Cond.Refines.{prewait-Joined, postwait-leave}
use lksmith.World.{World, Tls, TlsAnswers, log_report}
use lksmith.Api.{lksmith_check_locked}
use lksmith.Api.Calls.{Runs, with_tls-Runs}
use lksmith.Handler.{Real, Ran, cond_wait, cond_timedwait}
use lksmith.Handler.Waiting.{
  WaitAnswers, waited, wait_on_cond, pthread_cond_wait, pthread_cond_timedwait,
}

join-code : (mutex : ℕ) (x : Waiting) → ((join mutex x).0 ≡ ok) ⊎ ((join mutex x).0 ≡ err einval)
join-code mutex none = inl refl
join-code mutex (some (m, n)) = elim (Bool-cases (m == mutex)) [
  | inl e ↦ inl (ground arith)
  | inr e ↦ inr (ground arith)
]

join-some : (mutex : ℕ) (x : Waiting) → (join mutex x).1 ≢ none
join-some mutex none = λ e. cc e
join-some mutex (some (m, n)) = elim (Bool-cases (m == mutex)) [
  | inl e ↦ rw e (λ f. cc f)
  | inr e ↦ rw e (λ f. cc f)
]

-- The count of the waiters can be raised by one without wrapping.
abbrev Few : Waiting → Type 0
Few none = Unit
Few (some (m, n)) = n + 1 < 2 ^ 64

join-bound : (mutex l n : ℕ) (x : Waiting) → Few x → (join mutex x).1 ≡ some (l, n) → n < 2 ^ 64
join-bound mutex l n none few e = ground arith
join-bound mutex l n (some (m, k)) few e = ground arith

waiting_of-Few : (c : Cond) → c.refcnt + 1 < 2 ^ 64 → Few (waiting_of c)
waiting_of-Few c small = if_either Few (c.refcnt == 0) none (some (c.lock, c.refcnt)) tt small

waiting-Few :
    (T : TreeLib) (s : Conds T) (cond : ℕ)
    → IsWf T s
    → ((b : ℕ) (c : Cond) → s.heap b ≡ some c → c.refcnt + 1 < 2 ^ 64)
    → Few (waiting T s cond)
waiting-Few T s cond wf few = elim (Option-cases (T.find cond s.tree)) [
  | inl e ↦ rw e tt
  | inr (a, e) ↦
      let (c, live, own) = wf.find-live cond a e in rw (e, live) (waiting_of-Few c (few a c live))
]

module _ (T : TreeLib) (C : TextLib) (fn : Real) (t cond mutex : ℕ) where
  locked-Runs :
      (a : TlsAnswers) (tls : Tls) (w : World T)
      → Runs T C t tls w
      → lksmith_check_locked T C a t mutex w
        ≡ done (if tls_contains_lid tls.held mutex then ok else minus_one, w)
  unfolding lksmith_check_locked
  locked-Runs a tls w runs = with_tls-Runs T C a t _ _ _ w tls runs

  -- What a thread may rely on while it waits: the others keep the structures in order, and its own
  -- condition variable in use.
  abbrev pub Minds : (World T → World T) → Type 0
  Minds others =
      (u : World T) (cnd : ℕ) (c : Cond)
      → IsWf T u.conds
      → u.conds.heap cnd ≡ some c
      → c.ptr ≡ cond
      → c.refcnt ≢ 0
      → c.refcnt < 2 ^ 64
      → IsWf T (others u).conds
        × (c' : Cond) × ((others u).conds.heap cnd ≡ some c')
        × (c'.ptr ≡ cond)
        × (c'.refcnt ≢ 0)
        × (c'.refcnt < 2 ^ 64)

  -- The structure of a wait that lksmith_cond_prewait began.
  Joined-used :
      (s : Conds T) (r : Waits T)
      → Joined T s cond mutex r
      → Few (waiting T s cond)
      → r.code ≡ ok
      → (cnd : ℕ) × (c : Cond) × (r.out ≡ some cnd)
        × (r.conds.heap cnd ≡ some c)
        × (c.ptr ≡ cond)
        × (c.refcnt ≢ 0)
        × (c.refcnt < 2 ^ 64)
  Joined-used s r p few e =
      let (cnd, out, found) = p.out e in
      let (c, live, own) = p.wf.find-live cond cnd found in
      let seen : waiting T r.conds cond ≡ waiting_of c =
        rw own at (waiting-live T r.conds cnd c p.wf live) in
      let more : waiting T r.conds cond ≡ (join mutex (waiting T s cond)).1 =
        ap (λ x. x.1) p.refines in
      let used : c.refcnt ≢ 0 = λ z.
        (let idle : waiting_of c ≡ none = rw z refl in
          join-some mutex (waiting T s cond) (sym more ∙ (seen ∙ idle))) in
      let count : waiting_of c ≡ some (c.lock, c.refcnt) = rw (==_ne c.refcnt 0 used) refl in
      let small =
        join-bound mutex c.lock c.refcnt (waiting T s cond) few (sym more ∙ (seen ∙ count)) in
      (cnd, c, out, live, own, used, small)

  abbrev pub prewait_world : World T → Waits T → World T
  prewait_world w r = record w { conds = r.conds; log = w.log ++ r.log }

  waited-err :
      (a : WaitAnswers T C) (w : World T) (r : Waits T)
      → lksmith_cond_prewait T a.memory cond mutex w.conds ≡ done r
      → r.code ≡ err einval
      → waited T C fn a cond mutex w ≡ done (err einval, prewait_world w r, [])
  unfolding waited
  waited-err a w r run e = rw (run, e, waited) refl

  waited-ok :
      (a : WaitAnswers T C) (w : World T) (r : Waits T) (cnd : ℕ) (s : Conds T)
      → lksmith_cond_prewait T a.memory cond mutex w.conds ≡ done r
      → r.code ≡ ok
      → r.out ≡ some cnd
      → lksmith_cond_postwait T cnd (a.meanwhile (prewait_world w r)).conds ≡ done s
      → waited T C fn a cond mutex w
        ≡ done (a.real, record (a.meanwhile (prewait_world w r)) { conds = s }, fn ∷ [])
  unfolding waited
  waited-ok a w r cnd s run e out post = rw (run, e, out, post, waited) refl

  -- How a wait goes: refused without the mutex; refused by lksmith_cond_prewait; or done.
  abbrev pub Goes : WaitAnswers T C → Tls → World T → Outcome (Ran T C) → Type 0
  Goes a tls w o =
      ((tls_contains_lid tls.held mutex ≡ false)
        × (o ≡ done (err eperm, log_report T C eperm (cond_not_locked cond mutex) w, [])))
      ⊎ ((tls_contains_lid tls.held mutex ≡ true)
          × (r : Waits T) × Joined T w.conds cond mutex r
          × (((r.code ≡ err einval) × (o ≡ done (err einval, prewait_world w r, [])))
              ⊎ ((r.code ≡ ok)
                  × (w' : World T) × (o ≡ done (a.real, w', fn ∷ []))
                  × IsWf T w'.conds
                  × (waiting T w'.conds cond
                      ≡ leave (waiting T (a.meanwhile (prewait_world w r)).conds cond)))))

  wait_on_cond_lem :
      (a : WaitAnswers T C) (tls : Tls) (memory : ℕ) (w : World T)
      → Runs T C t tls w
      → a.memory ≡ some memory
      → w.conds.heap memory ≡ none
      → IsWf T w.conds
      → mutex ≢ 0
      → ((b : ℕ) (c : Cond) → w.conds.heap b ≡ some c → c.refcnt + 1 < 2 ^ 64)
      → Minds a.meanwhile
      → Goes a tls w (wait_on_cond T C fn a t cond mutex w)
  unfolding wait_on_cond
  wait_on_cond_lem a tls memory w runs given fresh wf real few minds =
      let check = locked-Runs a.tls tls w runs in
      elim (Bool-cases (tls_contains_lid tls.held mutex)) [
        | inr out ↦ inl (out, rw (check, out, wait_on_cond) refl)
        | inl held ↦
            let (r, run, p) = prewait-Joined T w.conds cond mutex memory wf real few fresh in
            let run' : lksmith_cond_prewait T a.memory cond mutex w.conds ≡ done r = rw given run in
            let code = ap (λ x. x.0) p.refines in
            rw (check, held, wait_on_cond)
              (inr (
                refl,
                r,
                p,
                (elim (join-code mutex (waiting T w.conds cond)) [
                  | inr e ↦ inl (code ∙ e, waited-err a w r run' (code ∙ e))
                  | inl e ↦
                      let (cnd, c, out, live, own, used, small) =
                        Joined-used w.conds r p (waiting-Few T w.conds cond wf few) (code ∙ e) in
                      let (wf2, c2, live2, own2, used2, small2) =
                        minds (prewait_world w r) cnd c p.wf live own used small in
                      let (s, post, wf3, left, frame) =
                        postwait-leave T (a.meanwhile (prewait_world w r)).conds cnd c2 wf2 live2
                          used2 small2 in
                      inr (
                        code ∙ e,
                        record (a.meanwhile (prewait_world w r)) { conds = s },
                        waited-ok a w r cnd s run' (code ∙ e) out post,
                        wf3,
                        rw own2 at left,
                      )
                ]),
              ))
      ]

module _ (T : TreeLib) (C : TextLib) (t cond mutex : ℕ) (a : WaitAnswers T C) (tls : Tls)
    (memory : ℕ) (w : World T) (runs : Runs T C t tls w) (given : a.memory ≡ some memory)
    (fresh : w.conds.heap memory ≡ none) (wf : IsWf T w.conds) (real : mutex ≢ 0)
    (few : (b : ℕ) (c : Cond) → w.conds.heap b ≡ some c → c.refcnt + 1 < 2 ^ 64) where
  -- pthread_cond_wait without the mutex returns EPERM, logs that and changes nothing else; with a mutex
  -- other than that of the present waiters it returns EINVAL; in neither case it calls the real
  -- function. Otherwise it counts one more waiter as the contract of lksmith_cond_prewait says, calls the
  -- real function once, returns its code, and takes one waiter off from those that the other threads
  -- left; the structures stay in order. (For a thread with storage whose calls are intercepted, fresh
  -- memory, a mutex that is not null, reference counts that do not wrap, and other threads that keep
  -- the structures in order and the condition variable in use.)
  pub pthread_cond_wait_lem :
      Minds T C cond_wait t cond mutex a.meanwhile
      → Goes T C cond_wait t cond mutex a tls w (pthread_cond_wait T C a t cond mutex w)
  unfolding pthread_cond_wait
  pthread_cond_wait_lem =
      wait_on_cond_lem T C cond_wait t cond mutex a tls memory w runs given fresh wf real few

  -- The same of pthread_cond_timedwait.
  pthread_cond_timedwait_lem :
      Minds T C cond_timedwait t cond mutex a.meanwhile
      → Goes T C cond_timedwait t cond mutex a tls w (pthread_cond_timedwait T C a t cond mutex w)
  unfolding pthread_cond_timedwait
  pthread_cond_timedwait_lem =
      wait_on_cond_lem T C cond_timedwait t cond mutex a tls memory w runs given fresh wf real few
