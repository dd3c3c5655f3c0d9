-- ===== src/System/Giving.antt =====
-- lksmith_preunlock and lksmith_postunlock keep the invariant.
use lksmith.Base.{ℕ, refl, inl, inr, not, Ensures, Ensures-bind, Outcome, Option-cases, if_either}
use lksmith.Code.{Code, ok, err, enoent, eperm, enomem, eio, failed}
use lksmith.Lock.{Lock, store}
use lksmith.Tree.{TreeLib}
use lksmith.Held.{tls_remove_held, tls_contains_lid}
use lksmith.Holders.{lk_holder_remove}
use lksmith.Holders.Faults.{lk_holder_remove-Ensures}
use lksmith.Graph.{lksmith_find}
use lksmith.Ignore.{TextLib}
use lksmith.Report.{
  unlock_unknown, unlock_not_held, not_in_held_list, unlocked_unknown, no_stored_backtrace,
}
use lksmith.World.{World, Tls, TlsAnswers}
use lksmith.World.Frame.{Fresh, Same, Same-refl, log_report-Same}
use lksmith.Api.Unlocking.{
  preunlock_held, preunlock_body, lksmith_preunlock, postunlock_removed, postunlock_body,
  lksmith_postunlock,
}
use lksmith.System.Invariant.{Inv, Inv-Same, Inv-store}
use lksmith.System.Links.{Pairs}
use lksmith.System.Opening.{with_tls-Ensures}

module _ (T : TreeLib) (C : TextLib) (O : Pairs) (n : ℕ) where
  preunlock_held-Same :
      (t : ℕ) (l : Lock) (tls : Tls) (w : World T) → Same T w (preunlock_held T C t l tls w)
  unfolding preunlock_held
  preunlock_held-Same t l tls w =
      if_either (Same T w) (not l.props.sleeper) _ _
        (record { graph = refl; conds = refl; log = refl }) (Same-refl T w)

  pub preunlock-Inv :
      (a : TlsAnswers) (t ptr : ℕ) (w : World T)
      → Fresh T C t w
      → Inv T O n w
      → Ensures (λ r. Inv T O n r.1) (lksmith_preunlock T C a t ptr w)
  unfolding lksmith_preunlock preunlock_body lksmith_find
  preunlock-Inv a t ptr w fresh i =
      with_tls-Ensures T C (λ r. Inv T O n r.1) a t (err enomem) ok _ w fresh
        (λ r u s. Inv-Same T O n w u i s)
        (λ tls u s.
          let j = Inv-Same T O n w u i s in
          elim (Option-cases (T.find ptr u.graph.tree)) [
            | inl e ↦
                rw (preunlock_body, e)
                  (Inv-Same T O n u _ j (log_report-Same T C enoent (unlock_unknown ptr) u refl))
            | inr (lk, e) ↦
                let (l, at, own) = j.wf.find-live ptr lk e in
                rw (preunlock_body, e, at)
                  (if_either {A = Outcome (Code × World T)} (Ensures (λ r. Inv T O n r.1))
                    (tls_contains_lid tls.held ptr) _ _
                    (Inv-Same T O n u _ j (preunlock_held-Same t l tls u))
                    (Inv-Same T O n u _ j (log_report-Same T C eperm (unlock_not_held ptr) u refl)))
          ])

  postunlock_removed-Inv :
      (ptr : ℕ) (tls : Tls) (w : World T)
      → Inv T O n w
      → Ensures (λ r. Inv T O n r.1) (postunlock_removed T C ptr tls w)
  unfolding postunlock_removed lksmith_find
  postunlock_removed-Inv ptr tls w i = elim (Option-cases (T.find ptr w.graph.tree)) [
    | inl e ↦
        rw (postunlock_removed, e)
          (Inv-Same T O n w _ i (log_report-Same T C eio (unlocked_unknown ptr) w refl))
    | inr (lk, e) ↦
        let (l, at, own) = i.wf.find-live ptr lk e in
        rw (postunlock_removed, e, at)
          (Ensures-bind (λ r. Unit) _ (lk_holder_remove tls.name l.holders) _
            (lk_holder_remove-Ensures tls.name l.holders)
            (λ r _.
              let l' : Lock = record l { holders = r.1 } in
              let g = w.graph in
              let u : World T = record w { graph = record g { heap = store lk l' g.heap } } in
              if_either (Inv T O n) (failed r.0) _ _
                (Inv-store T O n lk l l' w _ i at refl refl refl
                  (log_report-Same T C eio (no_stored_backtrace ptr) u refl))
                (Inv-store T O n lk l l' w u i at refl refl refl (Same-refl T u))))
  ]

  pub postunlock-Inv :
      (a : TlsAnswers) (t ptr : ℕ) (w : World T)
      → Fresh T C t w
      → Inv T O n w
      → Ensures (λ r. Inv T O n r.1) (lksmith_postunlock T C a t ptr w)
  unfolding lksmith_postunlock postunlock_body
  postunlock-Inv a t ptr w fresh i =
      with_tls-Ensures T C (λ r. Inv T O n r.1) a t tt tt _ w fresh
        (λ r u s. Inv-Same T O n w u i s)
        (λ tls u s.
          let j = Inv-Same T O n w u i s in
          let held = (tls_remove_held tls.held ptr).1 in
          let tls' : Tls = record tls { held = held } in
          if_either (Ensures (λ r. Inv T O n r.1)) (failed (tls_remove_held tls.held ptr).0) _ _
            (Inv-Same T O n u _ j (log_report-Same T C eio (not_in_held_list ptr) u refl))
            (postunlock_removed-Inv ptr tls' (record u { tls = store t tls' u.tls })
              (Inv-Same T O n u _ j (record { graph = refl; conds = refl; log = refl }))))
