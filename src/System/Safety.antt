-- ===== src/System/Safety.antt =====
-- What holds after any calls of any threads.
use lksmith.Base.{
  ℕ, suc, ◌+◌, ◌^◌, ◌<◌, ◌≡◌, refl, sym, ◌∙◌, ◌≢◌, List, [], ◌++◌, none, arith, Ensures,
  Ensures-bind, Ensures-with, some, done, if_either, ◌⊎◌, inl, inr, Outcome, fault, dangling,
  out_of_fuel, append-nil, subst,
}
use lksmith.Tree.{TreeLib}
use lksmith.Graph.{IsWf}
use lksmith.Cond.{lksmith_cond_prewait, lksmith_cond_postwait, cond_unused}
use lksmith.Api.Predestroy.{lksmith_cond_predestroy, predestroy-Stale}
use lksmith.Cond.Laws as Waits
use lksmith.Depends.Round.{inversions}
use lksmith.Depends.Order.{inversions-append}
use lksmith.Depends.Acyclic.{last, more, IsAcyclic}
use lksmith.Code.{Code, failed}
use lksmith.Report.{Report}
use lksmith.Ignore.{TextLib}
use lksmith.World.{World, TlsAnswers, get_or_create_tls, lksmith_tls_destroy}
use lksmith.World.Frame.{Same, Same-refl, Same-trans, Holds, Fresh, get_or_create_tls-Same}
use lksmith.Api.Locking.{lksmith_prelock}
use lksmith.System.{
  Call, init, optional_init, destroy, prelock, postlock, preunlock, postunlock, check_locked,
  set_thread_name, get_thread_name, cond_prewait, cond_postwait, cond_predestroy, thread_ends,
  state, perform, Allowed, unstarted, Reach, start, after, Living,
}
use lksmith.System.Invariant.{Inv, Inv-more, Inv-Same, Inv-wider, Inv-also}
use lksmith.System.Linking.{Checks, EdgeIfQuiet, prelock-Linked, Ordered, no_pairs, pairs}
use lksmith.System.Links.{Pairs}
use lksmith.System.Opening.{
  init_tls-Same, check_locked-Same, set_thread_name-Same, get_thread_name-Same,
}
use lksmith.System.Inserts.{optional_init-Inv, destroy-Inv}
use lksmith.System.Taking.{prelock-Inv, postlock-Inv}
use lksmith.System.Giving.{preunlock-Inv, postunlock-Inv}
use lksmith.System.Stale.{caller, perform-Stale, get_or_create_tls-Stale, Fresh-or-Stale}
use lksmith.System.Waits.{prewait-Waited, postwait-Kept, predestroy-quiet, Waited, Counts}

silent : (log rs : List Report) → inversions rs ≡ [] → inversions (log ++ rs) ≡ inversions log
silent log rs q = inversions-append log rs ∙ rw q (append-nil (inversions log))

empty-IsAcyclic : IsAcyclic (λ a. none)
empty-IsAcyclic x (last l e m) = cc e
empty-IsAcyclic x (more l z e m c) = cc e

module _ (T : TreeLib) (C : TextLib) where
  state-Ensures {ℓ} :
      {R : Type ℓ} (P Q : World T → Type 0) (o : Outcome (R × World T))
      → Ensures (λ r. P r.1) o
      → ((w : World T) → P w → Q w)
      → Ensures Q (state T C o)
  state-Ensures P Q o p weaken = Ensures-bind (λ r. P r.1) Q o _ p (λ r q. weaken r.1 q)

  unstarted-Inv : Inv T (no_pairs T C) 0 (unstarted T C)
  unstarted-Inv = record {
    wf = record {
      find-live = λ p a e. let z = T.find-empty p in cc (z, e);
      live-find = λ a l e. cc;
      before-live = λ a l e. cc;
      before-IsSorted = λ a l e. cc;
      color-le = λ a l e. cc;
    };
    colors = omega arith;
    acyclic = λ q. empty-IsAcyclic;
    order = λ e p q o. absurd o;
    from = λ p q (a, b, f, _, _). let z = T.find-empty p in cc (z, f);
    real = λ h m. absurd m;
    conds = record {
      find-live = λ p a e. let z = T.find-empty p in cc (z, e);
      live-find = λ a c e. cc;
      idle = λ a c e. cc;
    };
    counts = λ a c e. cc;
  }

  predestroy-Same :
      (a : TlsAnswers) (t cond : ℕ) (w : World T)
      → Fresh T C t w
      → Waits.IsWf T w.conds
      → Ensures (λ r. Same T w r.1) (lksmith_cond_predestroy T C a t cond w)
  unfolding lksmith_cond_predestroy
  predestroy-Same a t cond w fresh wf =
      if_either (Ensures (λ r. Same T w r.1)) w.initialized _ _
        (Ensures-bind (λ r. inversions r.1 ≡ []) (λ r. Same T w r.1) (cond_unused T cond w.conds) _
          (predestroy-quiet T cond w.conds wf)
          (λ r q.
            if_either (Ensures (λ r. Same T w r.1)) (failed r.0) _ _
              (Ensures-bind (λ g. Same T w g.1) (λ r. Same T w r.1) (get_or_create_tls T C a t w) _
                (get_or_create_tls-Same T C a t w fresh)
                (λ g s.
                  Same-trans T w g.1 _ s
                    (record { graph = refl; conds = refl; log = silent (g.1).log r.1 q })))
              (Same-refl T w)))
        tt

  perform-Inv :
      (O : Pairs) (n : ℕ) (c : Call) (w : World T)
      → Inv T O n w
      → n + 1 < 2 ^ 64
      → Allowed T C c w
      → Living T C c w
      → Ensures (Inv T (Ordered T C c w O) (suc n)) (perform T C c w)
  unfolding lksmith_tls_destroy
  perform-Inv O n c w i small allowed living = by_call c allowed living
    where
      more : (u : World T) → Inv T O n u → Inv T O (suc n) u
      more u = Inv-more T O n u

      framed : (u : World T) → Same T w u → Inv T O (suc n) u
      framed u s = Inv-more T O n u (Inv-Same T O n w u i s)

      by_call :
          (c : Call)
          → Allowed T C c w
          → Living T C c w
          → Ensures (Inv T (Ordered T C c w O) (suc n)) (perform T C c w)
      by_call (init a t) h f = state-Ensures (Same T w) _ _ (init_tls-Same T C a t w f) framed
      by_call (optional_init a memory t ptr recursive sleeper) h f =
          state-Ensures (Inv T O n) _ _
            (optional_init-Inv T C O n a memory t ptr recursive sleeper w f i h) more
      by_call (destroy a t ptr) h f =
          let must : ℕ → ℕ → Type 0 = λ p q. O.must p q × (p ≢ ptr) × (q ≢ ptr) in
          state-Ensures (Inv T (record O { must = must }) n) _ _ (destroy-Inv T C O n a t ptr w f i)
            (λ u. Inv-more T (record O { must = must }) n u)
      by_call (prelock a t ptr sleeper) h f =
          let few : w.graph.color + 1 < 2 ^ 64 = let k = i.colors in omega arith in
          let wider : Pairs = record O { may = λ p q. O.may p q ⊎ (q ≡ ptr) × Holds T C t p w } in
          let taken = lksmith_prelock T C a t ptr sleeper w in
          state-Ensures (Inv T (Ordered T C (prelock a t ptr sleeper) w O) (suc n)) _ taken
            (Ensures-with (λ r. Inv T wider (suc n) r.1) _ taken
              (prelock-Inv T C wider a n t ptr sleeper w f
                (Inv-wider T O wider.may n w (λ p q. inl) i) small h (λ p x. inr (refl, x)))
              (λ r run j.
                Inv-also T wider (λ p. Checks T C a t p ptr w) (suc n) ptr r.1
                  (λ p x.
                    subst (Ensures (EdgeIfQuiet T C p ptr)) run
                      (prelock-Linked T C a t p ptr sleeper w i.wf few h x))
                  j))
            (λ u j. j)
      by_call (postlock a memory t ptr error) h f =
          state-Ensures (Inv T O n) _ _ (postlock-Inv T C O a memory n t ptr error w f i) more
      by_call (preunlock a t ptr) h f =
          state-Ensures (Inv T O n) _ _ (preunlock-Inv T C O n a t ptr w f i) more
      by_call (postunlock a t ptr) h f =
          state-Ensures (Inv T O n) _ _ (postunlock-Inv T C O n a t ptr w f i) more
      by_call (check_locked a t ptr) h f =
          state-Ensures (Same T w) _ _ (check_locked-Same T C a t ptr w f) framed
      by_call (set_thread_name a t name) h f =
          state-Ensures (Same T w) _ _ (set_thread_name-Same T C a t name w f) framed
      by_call (get_thread_name a t) h f =
          state-Ensures (Same T w) _ _ (get_thread_name-Same T C a t w f) framed
      by_call (cond_prewait memory cond mutex) h f =
          if_either (Ensures (Inv T O (suc n))) w.initialized _ _
            (Ensures-bind (Waited T n) _ (lksmith_cond_prewait T memory cond mutex w.conds) _
              (prewait-Waited T n memory cond mutex w.conds i.conds i.counts small h.0 h.1)
              (λ p q. record {
                wf = i.wf;
                colors = let k = i.colors in omega arith;
                acyclic = λ e. i.acyclic (sym (silent w.log p.log q.quiet) ∙ e);
                order = λ e. i.order (sym (silent w.log p.log q.quiet) ∙ e);
                from = i.from;
                real = λ h m. i.real h (rw (silent w.log p.log q.quiet) at m);
                conds = q.wf;
                counts = q.counts;
              }))
            tt
      by_call (cond_postwait cnd) h f =
          if_either (Ensures (Inv T O (suc n))) w.initialized _ _
            (Ensures-bind (λ u. Waits.IsWf T u × Counts T n u) _
              (lksmith_cond_postwait T cnd w.conds) _
              (postwait-Kept T n cnd w.conds i.conds i.counts small h)
              (λ u q. more _ (record {
                wf = i.wf;
                colors = i.colors;
                acyclic = i.acyclic;
                order = i.order;
                from = i.from;
                real = i.real;
                conds = q.0;
                counts = q.1;
              })))
            tt
      by_call (cond_predestroy a t cond) h f =
          state-Ensures (Same T w) _ _ (predestroy-Same a t cond w f i.conds) framed
      by_call (thread_ends t) h f = framed _ (record { graph = refl; conds = refl; log = refl })

  -- With a dangling t_improved_tls, lksmith_cond_predestroy returns only if nobody waits.
  predestroy-kept :
      (o : Outcome (Code × World T)) (w w' : World T)
      → ((code : Code) (u : World T) → o ≡ done (code, u) → w ≡ u)
      → state T C o ≡ done w'
      → w ≡ w'
  predestroy-kept (done (code, u)) w w' same run = let e = same code u refl in cc (e, run)
  predestroy-kept (fault f) w w' same run = cc run

  abbrev Back : Pairs → ℕ → World T → World T → Call → Type 0
  Back O n w w' c = perform T C c w ≡ done w' → Inv T (Ordered T C c w O) (suc n) w'

  -- A call of a thread whose storage was destroyed changes nothing, if it returns.
  returned-Inv :
      (O : Pairs) (n : ℕ) (c : Call) (w w' : World T)
      → Inv T O n w
      → n + 1 < 2 ^ 64
      → Allowed T C c w
      → perform T C c w ≡ done w'
      → Inv T (Ordered T C c w O) (suc n) w'
  returned-Inv O n c w w' i small allowed run = elim (living c) [
    | inl l ↦
        subst (Ensures (Inv T (Ordered T C c w O) (suc n))) run
          (perform-Inv O n c w i small allowed l)
    | inr back ↦ back run
  ]
    where
      of_thread :
          (t : ℕ) (c : Call)
          → caller c ≡ some t
          → (Fresh T C t w → Living T C c w)
          → Living T C c w ⊎ Back O n w w' c
      of_thread t c mine alive = elim (Fresh-or-Stale T C t w) [
        | inl f ↦ inl (alive f)
        | inr s ↦ inr (λ run. cc (perform-Stale T C t w c s mine, run))
      ]

      living : (c : Call) → Living T C c w ⊎ Back O n w w' c
      living (init a t) = of_thread t (init a t) refl (λ f. f)
      living (optional_init a memory t ptr recursive sleeper) =
          of_thread t (optional_init a memory t ptr recursive sleeper) refl (λ f. f)
      living (destroy a t ptr) = of_thread t (destroy a t ptr) refl (λ f. f)
      living (prelock a t ptr sleeper) = of_thread t (prelock a t ptr sleeper) refl (λ f. f)
      living (postlock a memory t ptr error) =
          of_thread t (postlock a memory t ptr error) refl (λ f. f)
      living (preunlock a t ptr) = of_thread t (preunlock a t ptr) refl (λ f. f)
      living (postunlock a t ptr) = of_thread t (postunlock a t ptr) refl (λ f. f)
      living (check_locked a t ptr) = of_thread t (check_locked a t ptr) refl (λ f. f)
      living (set_thread_name a t name) = of_thread t (set_thread_name a t name) refl (λ f. f)
      living (get_thread_name a t) = of_thread t (get_thread_name a t) refl (λ f. f)
      living (cond_predestroy a t cond) = elim (Fresh-or-Stale T C t w) [
        | inl f ↦ inl f
        | inr s ↦ inr (λ run.
            subst (Inv T O (suc n))
              (predestroy-kept (lksmith_cond_predestroy T C a t cond w) w w'
                (λ code u.
                  predestroy-Stale T C a t cond w u code i.conds
                    (get_or_create_tls-Stale T C a t w s))
                run)
              (Inv-more T O n w i))
      ]
      living (cond_prewait memory cond mutex) = inl tt
      living (cond_postwait cnd) = inl tt
      living (thread_ends t) = inl tt

  pub Reach-Inv : (n : ℕ) (w : World T) (r : Reach T C n w) → n < 2 ^ 64 → Inv T (pairs T C r) n w
  Reach-Inv n w start small = unstarted-Inv
  Reach-Inv n w (after {n = m} {w = u} c r allowed run) small =
      returned-Inv (pairs T C r) m c u w (Reach-Inv m u r (omega arith)) (omega arith) allowed run

  -- After fewer than 2^64 - 1 calls, whatever calls the threads made in whatever order, as long as memory
  -- is fresh, mutexes are not null and each end of a wait has its beginning: the locks and the condition
  -- variables are well-formed, and the next such call, of a thread whose storage was not destroyed,
  -- follows no dangling pointer and does not run out of fuel.
  pub calls-safe :
      (n : ℕ) (w : World T) (c : Call)
      → Reach T C n w
      → n + 1 < 2 ^ 64
      → Allowed T C c w
      → Living T C c w
      → IsWf T w.graph
        × Waits.IsWf T w.conds
        × (perform T C c w ≢ fault dangling)
        × (perform T C c w ≢ fault out_of_fuel)
  calls-safe n w c r small allowed living =
      let i = Reach-Inv n w r (omega arith) in
      let p = perform-Inv (pairs T C r) n c w i small allowed living in
      (
        i.wf,
        i.conds,
        λ e. subst (Ensures (Inv T (Ordered T C c w (pairs T C r)) (suc n))) e p,
        λ e. subst (Ensures (Inv T (Ordered T C c w (pairs T C r)) (suc n))) e p,
      )

  -- As long as no lock inversion was reported, the order in which locks were taken has no cycle,
  -- whatever calls the threads made in whatever order. (Of fewer than 2^64 calls, under the conditions
  -- of a call.)
  pub quiet-IsAcyclic :
      (n : ℕ) (w : World T)
      → Reach T C n w
      → n < 2 ^ 64
      → inversions w.log ≡ []
      → IsAcyclic w.graph.heap
  quiet-IsAcyclic n w r small quiet = (Reach-Inv n w r small).acyclic quiet
