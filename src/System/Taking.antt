-- ===== src/System/Taking.antt =====
-- lksmith_prelock and lksmith_postlock keep the invariant.
use lksmith.Base.{
  ℕ, suc, ◌+◌, ◌^◌, ◌<◌, ◌≡◌, ◌⊎◌, refl, List, In, inl, inr, Bool, true, not, ◌++◌, some, arith,
  Ensures, Ensures-bind, Bool-cases, Option-cases, if_either, if◌then◌else◌, ltb, ◌&&◌,
}
use lksmith.Code.{Code, ok, err, enomem, eio, ewouldblock, failed}
use lksmith.Lock.{Lock, Holder, store}
use lksmith.Tree.{TreeLib}
use lksmith.Held.{tls_append_held}
use lksmith.Holders.{lk_holder_add, lk_holder_remove}
use lksmith.Holders.Faults.{lk_holder_remove-Ensures}
use lksmith.Graph.{lksmith_find}
use lksmith.Graph.Update.{store_self}
use lksmith.Depends.Order.{Candidate, process_depends-Checked}
use lksmith.Depends.Link.{quiet_before, In-inversions}
use lksmith.Depends.Round.{inversions, Inverts}
use lksmith.Depends.Acyclic.{process_depends-IsAcyclic}
use lksmith.Ignore.{TextLib, should_skip_dependency_processing}
use lksmith.Report.{
  Report, no_holder_data, no_lock_data, no_prelock_data, no_held_space, sleeping_under_spin,
}
use lksmith.World.{World, Tls, TlsAnswers}
use lksmith.World.Frame.{Fresh, Holds, Same-refl, log_report-Same}
use lksmith.Api.Locking.{
  LockAnswers, max_nlock, holder_create, add_holder, prelock_at, prelock_new, prelock_body,
  lksmith_prelock, postlock_spins, postlock_taken, postlock_failed, lksmith_postlock,
}
use lksmith.System.{Unused}
use lksmith.System.Invariant.{Inv, Inv-more, Inv-Same, Inv-store}
use lksmith.System.Links.{Pairs, Ways, once, Ways-map, Ways-trans, Edge, Edge-Grows}
use lksmith.System.Sources.{Edge-Grows_inv, Inverts-Ways, find_inj}
use lksmith.System.Opening.{with_tls-Ensures, with_tls-Holds}
use lksmith.System.Inserts.{insert_cases}

module _ (T : TreeLib) (C : TextLib) (O : Pairs) where
  add_holder-Inv :
      (n lk : ℕ) (l : Lock) (holder : Holder) (w : World T)
      → Inv T O n w
      → w.graph.heap lk ≡ some l
      → Ensures (λ r. Inv T O n r.1) (add_holder T C lk holder w)
  unfolding add_holder
  add_holder-Inv n lk l holder w i at =
      rw (add_holder, at)
        (Inv-store T O n lk l (record l { holders = lk_holder_add holder l.holders }) w _ i at refl
          refl refl (Same-refl T _))

  prelock_at-Inv :
      (grow : ℕ → Bool) (tls : Tls) (n ptr : ℕ) (holder : Holder) (lk : ℕ) (l : Lock) (w : World T)
      → Inv T O n w
      → n + 1 < 2 ^ 64
      → w.graph.heap lk ≡ some l
      → l.ptr ≡ ptr
      → ((h : ℕ) → In h tls.held → O.may h ptr)
      → Ensures (λ r. Inv T O (suc n) r.1) (prelock_at T C grow tls ptr holder lk w)
  unfolding prelock_at
  prelock_at-Inv grow tls n ptr holder lk l w i small at own may =
      elim (Bool-cases (
        should_skip_dependency_processing C w.ignored_frames w.ignored_patterns holder.bt_frames)) [
          | inl skip ↦ rw skip (add_holder-Inv (suc n) lk l holder w (Inv-more T O n w i) at)
          | inr look ↦
              let few : w.graph.color + 1 < 2 ^ 64 = let c = i.colors in omega arith in
              let (c, ec, g, rs, run, wf0, _, p) =
                process_depends-Checked T lk ptr grow tls.held w.graph l i.wf at own few in
              let (l', at', _) = p.grows.locks lk l at in
              let u : World T = record w { graph = g; log = w.log ++ rs } in
              rw (look, run)
                (add_holder-Inv (suc n) lk l' holder u
                  (record {
                    wf = p.grows.wf;
                    colors = let k = i.colors in rw p.grows.color (omega arith);
                    acyclic = λ q.
                        let (before, now) = quiet_before w.log rs q in
                        process_depends-IsAcyclic T lk ptr grow tls.held w.graph g l rs i.wf at own
                          few run now (i.acyclic before);
                    order = λ q x y o.
                        let (before, _) = quiet_before w.log rs q in
                        Edge-Grows T lk (Candidate T lk ptr w.graph tls.held)
                          (record w.graph { color = c }) g p.grows x y (i.order before x y o);
                    from = λ x y e. source x y (
                        Edge-Grows_inv T lk ptr (Candidate T lk ptr w.graph tls.held)
                          (record w.graph { color = c }) g l wf0 p.grows at own x y e);
                    real = λ h m. cycle rs p.sound h (In-inversions w.log rs h m);
                    conds = i.conds;
                    counts = λ a d e. let k = i.counts a d e in omega arith;
                  })
                  at')
        ]
    where
      source :
          (x y : ℕ)
          → Edge T w.graph x y
            ⊎ (y ≡ ptr)
              × ((a : ℕ) × (T.find x w.graph.tree ≡ some a) × Candidate T lk ptr w.graph tls.held a)
          → O.may x y
      source x y (inl e) = i.from x y e
      source x y (inr (same, (a, f, (h, m, k, _)))) =
          let eq : x ≡ h = find_inj T w.graph i.wf x h a f k in rw (same, eq) (may h m)

      cycle :
          (rs : List Report)
          → ((h : ℕ) → In h (inversions rs) → In h tls.held × Inverts T lk ptr w.graph h)
          → (h : ℕ) → In h (inversions w.log) ⊎ In h (inversions rs)
          → (p : ℕ) × Ways O.may p p
      cycle rs sound h (inl m) = i.real h m
      cycle rs sound h (inr m) =
          let (held, v) = sound h m in
          let way =
            Ways-map (Edge T w.graph) O.may i.from ptr h
              (Inverts-Ways T lk ptr w.graph l i.wf at own h v) in
          (ptr, Ways-trans O.may ptr h ptr way (once (may h held)))

  prelock_body-Inv :
      (a : LockAnswers) (n ptr : ℕ) (sleeper : Bool) (tls : Tls) (w : World T)
      → Inv T O n w
      → n + 1 < 2 ^ 64
      → Unused w.graph.heap a.lock_memory
      → ((h : ℕ) → In h tls.held → O.may h ptr)
      → Ensures (λ r. Inv T O (suc n) r.1) (prelock_body T C a ptr sleeper tls w)
  unfolding prelock_body prelock_new lksmith_find
  prelock_body-Inv a n ptr sleeper tls w i small free may =
      elim (Option-cases (holder_create a.frames tls)) [
        | inl e ↦
            rw (prelock_body, e)
              (Inv-Same T O (suc n) w _ (Inv-more T O n w i)
                (log_report-Same T C enomem (no_holder_data ptr) w refl))
        | inr (holder, e) ↦ elim (Option-cases (T.find ptr w.graph.tree)) [
          | inr (lk, f) ↦
              let (l, at, own) = i.wf.find-live ptr lk f in
              rw (prelock_body, e, f)
                (prelock_at-Inv a.grow tls n ptr holder lk l w i small at own may)
          | inl f ↦ elim (insert_cases T C O n a.lock_memory ptr true sleeper w i free) [
            | inl (c, r) ↦
                rw (prelock_body, e, f, r)
                  (Inv-Same T O (suc n) w _ (Inv-more T O n w i)
                    (log_report-Same T C c (no_lock_data ptr) w refl))
            | inr p ↦
                rw (prelock_body, e, f, p.result)
                  (prelock_at-Inv a.grow tls n ptr holder p.lk p.lock (record w { graph = p.graph })
                    p.inv small p.live p.own may)
          ]
        ]
      ]

  pub prelock-Inv :
      (a : LockAnswers) (n t ptr : ℕ) (sleeper : Bool) (w : World T)
      → Fresh T C t w
      → Inv T O n w
      → n + 1 < 2 ^ 64
      → Unused w.graph.heap a.lock_memory
      → ((h : ℕ) → Holds T C t h w → O.may h ptr)
      → Ensures (λ r. Inv T O (suc n) r.1) (lksmith_prelock T C a t ptr sleeper w)
  unfolding lksmith_prelock
  prelock-Inv a n t ptr sleeper w fresh i small free may =
      with_tls-Holds T C (λ r. Inv T O (suc n) r.1) a.tls t (err enomem) ok _ w fresh
        (λ u s. let j = Inv-Same T O (suc n) w u (Inv-more T O n w i) s in (j, j))
        (λ tls u s held.
          prelock_body-Inv a n ptr sleeper tls u (Inv-Same T O n w u i s) small (rw s.graph free)
            (λ h m. may h (held h m)))

  postlock_spins-Inv :
      (n t ptr lk : ℕ) (l : Lock) (tls : Tls) (w : World T)
      → Inv T O n w
      → w.graph.heap lk ≡ some l
      → Inv T O n (postlock_spins T C t ptr lk l tls w)
  unfolding postlock_spins
  postlock_spins-Inv n t ptr lk l tls w i at =
      let g = w.graph in
      let p = l.props in
      let l' : Lock = record l { props = record p { spin_warn = true } } in
      let kept : World T = record w { tls = store t tls w.tls } in
      let warned : World T = record w {
        graph = record g { heap = store lk l' g.heap };
        tls = store t tls w.tls;
      } in
      let j = Inv-Same T O n w kept i (record { graph = refl; conds = refl; log = refl }) in
      let k =
        Inv-store T O n lk l l' kept warned j at refl refl refl
          (record { graph = refl; conds = refl; log = refl }) in
      if_either (Inv T O n) (not l.props.sleeper) _ _
        (Inv-Same T O n w _ i (record { graph = refl; conds = refl; log = refl }))
        (if_either (Inv T O n) (ltb 0 tls.num_spins && not l.props.spin_warn) _ kept
          (Inv-Same T O n warned _ k
            (log_report-Same T C ewouldblock (sleeping_under_spin ptr) warned refl))
          j)

  postlock_taken-Inv :
      (memory : Bool) (n t ptr lk : ℕ) (l : Lock) (tls : Tls) (w : World T)
      → Inv T O n w
      → w.graph.heap lk ≡ some l
      → Inv T O n (postlock_taken T C memory t ptr lk l tls w)
  unfolding postlock_taken
  postlock_taken-Inv memory n t ptr lk l tls w i at =
      let p = l.props in
      let l' : Lock = record l {
        props = record p { nlock = if ltb p.nlock max_nlock then p.nlock + 1 else p.nlock };
      } in
      let g = w.graph in
      let u : World T = record w { graph = record g { heap = store lk l' g.heap } } in
      let j = Inv-store T O n lk l l' w u i at refl refl refl (Same-refl T u) in
      let held = tls_append_held memory tls.held ptr in
      if_either (Inv T O n) (failed held.0) _ _
        (Inv-Same T O n u _ j (log_report-Same T C enomem (no_held_space ptr) u refl))
        (postlock_spins-Inv n t ptr lk l' (record tls { held = held.1 }) u j
          (store_self lk l' g.heap))

  postlock_failed-Inv :
      (n lk : ℕ) (l : Lock) (tls : Tls) (w : World T)
      → Inv T O n w
      → w.graph.heap lk ≡ some l
      → Ensures (Inv T O n) (postlock_failed T C lk l tls w)
  unfolding postlock_failed
  postlock_failed-Inv n lk l tls w i at =
      Ensures-bind (λ r. Unit) (Inv T O n) (lk_holder_remove tls.name l.holders) _
        (lk_holder_remove-Ensures tls.name l.holders)
        (λ r _.
          Inv-store T O n lk l (record l { holders = r.1 }) w _ i at refl refl refl (Same-refl T _))

  pub postlock-Inv :
      (a : TlsAnswers) (memory : Bool) (n t ptr : ℕ) (error : Code) (w : World T)
      → Fresh T C t w
      → Inv T O n w
      → Ensures (λ r. Inv T O n r.1) (lksmith_postlock T C a memory t ptr error w)
  unfolding lksmith_postlock lksmith_find
  postlock-Inv a memory n t ptr error w fresh i =
      with_tls-Ensures T C (λ r. Inv T O n r.1) a t tt tt _ w fresh
        (λ r u s. Inv-Same T O n w u i s)
        (λ tls u s.
          let j = Inv-Same T O n w u i s in
          elim (Option-cases (T.find ptr u.graph.tree)) [
            | inl e ↦
                rw e (Inv-Same T O n u _ j (log_report-Same T C eio (no_prelock_data ptr) u refl))
            | inr (lk, e) ↦
                let (l, at, own) = j.wf.find-live ptr lk e in
                rw (e, at)
                  (if_either (Ensures (λ r. Inv T O n r.1)) (failed error) _ _
                    (Ensures-bind (Inv T O n) _ (postlock_failed T C lk l tls u) _
                      (postlock_failed-Inv n lk l tls u j at) (λ v k. k))
                    (postlock_taken-Inv memory n t ptr lk l tls u j at))
          ])
