-- ===== src/Api/Unlocking.antt =====
-- Around the real unlock function (lksmith.c, lksmith_preunlock and lksmith_postunlock).
use lksmith.Base.{
  ℕ, ◌+◌, ◌-◌, ◌%◌, ◌^◌, not, none, some, if◌then◌else◌, Outcome, done, fault, dangling, ◌>>=◌,
}
use lksmith.Code.{Code, ok, err, enomem, enoent, eperm, eio, failed}
use lksmith.Lock.{Lock, store}
use lksmith.Tree.{TreeLib}
use lksmith.Held.{tls_remove_held, tls_contains_lid}
use lksmith.Holders.{lk_holder_remove}
use lksmith.Graph.{lksmith_find}
use lksmith.Ignore.{TextLib}
use lksmith.Report.{
  unlock_unknown, unlock_not_held, not_in_held_list, unlocked_unknown, no_stored_backtrace,
}
use lksmith.World.{World, Tls, TlsAnswers, log_report}
use lksmith.Api.{with_tls}

module _ (T : TreeLib) (C : TextLib) where
  -- num_spins is a field of 63 bits.
  unfoldable pub preunlock_held : ℕ → Lock → Tls → World T → World T
  preunlock_held t l tls w =
      if not l.props.sleeper
      then record w {
        tls = store t (record tls { num_spins = (tls.num_spins + 2 ^ 63 - 1) % 2 ^ 63 }) w.tls;
      }
      else w

  unfoldable pub preunlock_body : ℕ → ℕ → Tls → World T → Outcome (Code × World T)
  unfolding preunlock_held
  preunlock_body t ptr tls w = elim (lksmith_find T ptr w.graph) [
    | none ↦ done (err enoent, log_report T C enoent (unlock_unknown ptr) w)
    | some lk ↦ elim (w.graph.heap lk) [
      | none ↦ fault dangling
      | some l ↦
          if tls_contains_lid tls.held ptr
          then done (ok, preunlock_held t l tls w)
          else done (err eperm, log_report T C eperm (unlock_not_held ptr) w)
    ]
  ]

  unfoldable pub lksmith_preunlock : TlsAnswers → ℕ → ℕ → World T → Outcome (Code × World T)
  unfolding preunlock_body
  lksmith_preunlock a t ptr = with_tls T C a t (err enomem) ok (λ tls w. preunlock_body t ptr tls w)

  -- lksmith_postunlock after tls_remove_held succeeded.
  unfoldable pub postunlock_removed : ℕ → Tls → World T → Outcome (Unit {0} × World T)
  postunlock_removed ptr tls w = elim (lksmith_find T ptr w.graph) [
    | none ↦ done (tt, log_report T C eio (unlocked_unknown ptr) w)
    | some lk ↦ elim (w.graph.heap lk) [
      | none ↦ fault dangling
      | some l ↦ lk_holder_remove tls.name l.holders >>= λ r.
          let l' : Lock = record l { holders = r.1 } in
          let g = w.graph in
          let w' : World T = record w { graph = record g { heap = store lk l' g.heap } } in
          done (tt, if failed r.0 then log_report T C eio (no_stored_backtrace ptr) w' else w')
    ]
  ]

  unfoldable pub postunlock_body : ℕ → ℕ → Tls → World T → Outcome (Unit {0} × World T)
  unfolding postunlock_removed
  postunlock_body t ptr tls w =
      let (code, held) = tls_remove_held tls.held ptr in
      if failed code
      then done (tt, log_report T C eio (not_in_held_list ptr) w)
      else (let tls' : Tls = record tls { held = held } in
          postunlock_removed ptr tls' (record w { tls = store t tls' w.tls }))

  unfoldable pub lksmith_postunlock : TlsAnswers → ℕ → ℕ → World T → Outcome (Unit {0} × World T)
  unfolding postunlock_body
  lksmith_postunlock a t ptr = with_tls T C a t tt tt (λ tls w. postunlock_body t ptr tls w)
