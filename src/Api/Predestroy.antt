-- ===== src/Api/Predestroy.antt =====
-- lksmith_cond_predestroy (lksmith.c).
use lksmith.Base.{
  ℕ, ◌≡◌, ◌≢◌, refl, true, false, List, ◌++◌, Option, none, some, ◌⊎◌, inl, inr, Bool-cases,
  Option-cases, if◌then◌else◌, Outcome, done, fault, null_deref, dangling, ◌>>=◌,
}
use lksmith.Code.{Code, ok, err, einval, failed}
use lksmith.Tree.{TreeLib}
use lksmith.Report.{Report, cond_in_use}
use lksmith.Ignore.{TextLib}
use lksmith.Cond.{cond_unused}
use lksmith.Cond.Laws as Waits
use lksmith.Cond.Laws.{waiting}
use lksmith.Cond.Refines.{cond_unused_iff}
use lksmith.World.{World, Tls, TlsAnswers, log_report, create_tls, get_or_create_tls}
use lksmith.World.Frame.{Fresh}

module _ (T : TreeLib) (C : TextLib) where
  -- Nothing here initializes the library, and r_pthread_mutex_lock is null before that.
  -- lksmith_error_with_ti gets the storage of the thread, which it does not have to have yet.
  unfoldable pub lksmith_cond_predestroy : TlsAnswers → ℕ → ℕ → World T → Outcome (Code × World T)
  unfolding cond_unused get_or_create_tls
  lksmith_cond_predestroy a t cond w =
      let checked = cond_unused T cond w.conds >>= λ r.
      if failed r.0
      then (get_or_create_tls T C a t w >>= λ g. done (r.0, record g.1 { log = (g.1).log ++ r.1 }))
      else done (ok, w) in
      if w.initialized then checked else fault null_deref

  predestroy-uninitialized :
      (a : TlsAnswers) (t cond : ℕ) (w : World T)
      → w.initialized ≡ false
      → lksmith_cond_predestroy a t cond w ≡ fault null_deref
  unfolding lksmith_cond_predestroy
  predestroy-uninitialized a t cond w off = rw (off, lksmith_cond_predestroy) refl

  predestroy-idle :
      (a : TlsAnswers) (t cond : ℕ) (log : List Report) (w : World T)
      → w.initialized ≡ true
      → cond_unused T cond w.conds ≡ done (ok, log)
      → lksmith_cond_predestroy a t cond w ≡ done (ok, w)
  unfolding lksmith_cond_predestroy
  predestroy-idle a t cond log w on e = rw (on, e, lksmith_cond_predestroy) refl

  predestroy-used :
      (a : TlsAnswers) (t cond : ℕ) (log : List Report) (w : World T)
      → w.initialized ≡ true
      → cond_unused T cond w.conds ≡ done (err einval, log)
      → lksmith_cond_predestroy a t cond w ≡ (
          get_or_create_tls T C a t w >>= λ g.
          done (err einval, record g.1 { log = (g.1).log ++ log }))
  unfolding lksmith_cond_predestroy
  predestroy-used a t cond log w on e = rw (on, e, lksmith_cond_predestroy) refl

  pub predestroy-Stale :
      (a : TlsAnswers) (t cond : ℕ) (w w' : World T) (code : Code)
      → Waits.IsWf T w.conds
      → get_or_create_tls T C a t w ≡ fault dangling
      → lksmith_cond_predestroy a t cond w ≡ done (code, w')
      → w ≡ w'
  predestroy-Stale a t cond w w' code wf stale run = elim (Bool-cases w.initialized) [
    | inr off ↦ cc (predestroy-uninitialized a t cond w off, run)
    | inl on ↦
        let (c, log, e, why) = cond_unused_iff T w.conds cond wf in
        elim why [
          | inl (_, z, _) ↦ let r = predestroy-idle a t cond log w on (rw z at e) in cc (r, run)
          | inr (_, z, _) ↦
              let r = predestroy-used a t cond log w on (rw z at e) in
              absurd (let q = rw stale at r in cc (q, run))
        ]
  ]

  made :
      (a : TlsAnswers) (t : ℕ) (w : World T)
      → w.initialized ≡ true
      → Fresh T C t w
      → (g : Option Tls × World T) × (get_or_create_tls T C a t w ≡ done g)
  unfolding get_or_create_tls
  made a t w on fresh = elim (Option-cases (w.tls t)) [
    | inr (tls, e) ↦ ((some tls, w), rw (e, get_or_create_tls) refl)
    | inl e ↦ (create_tls T C a t w, rw (e, fresh e, on, get_or_create_tls) refl)
  ]

  -- What lksmith_cond_predestroy does, once the library is initialized.
  abbrev pub Predestroyed : TlsAnswers → ℕ → ℕ → World T → Type 0
  Predestroyed a t cond w =
      (waiting T w.conds cond ≡ none) × (lksmith_cond_predestroy a t cond w ≡ done (ok, w))
      ⊎ (waiting T w.conds cond ≢ none)
        × ((g : Option Tls × World T) × (get_or_create_tls T C a t w ≡ done g)
            × (lksmith_cond_predestroy a t cond w
                ≡ done (err einval, log_report T C einval (cond_in_use cond) g.1)))

  -- Before the library is initialized, lksmith_cond_predestroy calls through a null pointer. After it,
  -- with the condition variables in order and for a thread whose storage was not destroyed, it
  -- returns: it accepts a condition variable exactly when nobody waits on it, and then changes
  -- nothing; otherwise it fails with EINVAL and logs that once, after it got the storage of the thread.
  pub predestroy_iff :
      (a : TlsAnswers) (t cond : ℕ) (w : World T)
      → Waits.IsWf T w.conds
      → Fresh T C t w
      → (w.initialized ≡ false) × (lksmith_cond_predestroy a t cond w ≡ fault null_deref)
        ⊎ (w.initialized ≡ true) × Predestroyed a t cond w
  predestroy_iff a t cond w wf fresh = elim (Bool-cases w.initialized) [
    | inr off ↦ inl (off, predestroy-uninitialized a t cond w off)
    | inl on ↦
        let (c, log, e, why) = cond_unused_iff T w.conds cond wf in
        inr (
          on,
          elim why [
            | inl (n, z, _) ↦ inl (n, predestroy-idle a t cond log w on (rw z at e))
            | inr (n, z, l) ↦
                let (g, run) = made a t w on fresh in
                let r = predestroy-used a t cond _ w on (rw (z, l) at e) in
                inr (n, (g, run, rw run at r))
          ],
        )
  ]
