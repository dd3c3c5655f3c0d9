-- ===== src/Api/Warned.antt =====
-- The warning about a sleeping lock that is taken under a spin lock.
use lksmith.Base.{
  ℕ, ◌+◌, ◌≡◌, refl, sym, ◌∙◌, inl, inr, Bool, true, false, [], ◌∷◌, ◌++◌, done, Bool-cases, ltb,
  not, ◌&&◌, ◌||◌, if◌then◌else◌, subst,
}
use lksmith.Code.{ok, ewouldblock}
use lksmith.Lock.{Lock}
use lksmith.Tree.{TreeLib}
use lksmith.Held.{tls_append_held}
use lksmith.Graph.{lksmith_find}
use lksmith.Ignore.{TextLib}
use lksmith.World.{World, Tls, TlsAnswers}
use lksmith.Report.{Report, sleeping_under_spin}
use lksmith.Api.Calls.{Known, Known-store, Runs, with_lock, with_tls-Runs}
use lksmith.Api.Locking.{max_nlock, lksmith_postlock, postlock_taken, postlock_spins}
use lksmith.Api.Taken.{spins_warn, spins_calm, spins_count}

or-true : (b : Bool) → true ≡ (b || true)
or-true true = refl
or-true false = refl

or-false : (b : Bool) → b ≡ (b || false)
or-false true = refl
or-false false = refl

module _ (T : TreeLib) (C : TextLib) (t lk ptr : ℕ) where
  -- The lock sleeps, the thread has a spin lock, and the lock was not warned of before.
  abbrev pub is_due : Lock → Tls → Bool
  is_due l tls = l.props.sleeper && (ltb 0 tls.num_spins && not l.props.spin_warn)

  abbrev pub warning : Report
  warning = record { code = ewouldblock; message = sleeping_under_spin ptr }

  pub record Warned (l : Lock) (due : Bool) (w w' : World T) : Type 0 where
    pub after : Lock
    pub known : Known T lk ptr after w'.graph
    pub warned : after.props.spin_warn ≡ (l.props.spin_warn || due)
    pub logged : w'.log ≡ (if due then w.log ++ warning ∷ [] else w.log)

  spins-Warned :
      (l : Lock) (tls : Tls) (w : World T)
      → Known T lk ptr l w.graph
      → Warned l (is_due l tls) w (postlock_spins T C t ptr lk l tls w)
  spins-Warned l tls w k = elim (Bool-cases l.props.sleeper) [
    | inr spin ↦
        let none_due : is_due l tls ≡ false = rw spin refl in
        subst (λ d. Warned l d w (postlock_spins T C t ptr lk l tls w)) (sym none_due)
          (subst (Warned l false w) (sym (spins_count T C t lk ptr l tls w spin))
            (record { after = l; known = k; warned = or-false l.props.spin_warn; logged = refl }))
    | inl sleeps ↦ elim (Bool-cases (ltb 0 tls.num_spins && not l.props.spin_warn)) [
      | inl due ↦
          let p = l.props in
          let l' : Lock = record l { props = record p { spin_warn = true } } in
          let one_due : is_due l tls ≡ true = rw (sleeps, due) refl in
          subst (λ d. Warned l d w (postlock_spins T C t ptr lk l tls w)) (sym one_due)
            (subst (Warned l true w) (sym (spins_warn T C t lk ptr l tls w sleeps due)) (record {
              after = l';
              known = Known-store T lk ptr l l' w.graph k refl refl refl;
              warned = or-true l.props.spin_warn;
              logged = refl;
            }))
      | inr calm ↦
          let none_due : is_due l tls ≡ false = rw (sleeps, calm) refl in
          subst (λ d. Warned l d w (postlock_spins T C t ptr lk l tls w)) (sym none_due)
            (subst (Warned l false w) (sym (spins_calm T C t lk ptr l tls w sleeps calm))
              (record { after = l; known = k; warned = or-false l.props.spin_warn; logged = refl }))
    ]
  ]

  taken-Warned :
      (l : Lock) (tls : Tls) (w : World T)
      → Known T lk ptr l w.graph
      → Warned l (is_due l tls) w (postlock_taken T C true t ptr lk l tls w)
  unfolding postlock_taken tls_append_held
  taken-Warned l tls w k =
      let p = l.props in
      let l' : Lock = record l {
        props = record p { nlock = if ltb p.nlock max_nlock then p.nlock + 1 else p.nlock };
      } in
      let g = w.graph in
      let stored : Tls = record tls { held = tls.held ++ ptr ∷ [] } in
      let s =
        spins-Warned l' stored (record w { graph = with_lock T g lk l' })
          (Known-store T lk ptr l l' w.graph k refl refl refl) in
      record { after = s.after; known = s.known; warned = s.warned; logged = s.logged }

  -- When a thread took a known lock, lksmith_postlock warns exactly if the lock sleeps, the thread has
  -- a spin lock, and this lock was not warned of before: then one message is logged, and otherwise
  -- none. Afterwards the lock is marked exactly if it was before or this call warned. (For a thread with
  -- storage whose calls are intercepted, a well-formed graph, and memory for the held list.)
  pub postlock-Warned :
      (a : TlsAnswers) (l : Lock) (tls : Tls) (w : World T)
      → Runs T C t tls w
      → Known T lk ptr l w.graph
      → (w' : World T) × (lksmith_postlock T C a true t ptr ok w ≡ done (tt, w'))
        × Warned l (is_due l tls) w w'
  unfolding lksmith_postlock lksmith_find
  postlock-Warned a l tls w runs k = (
    postlock_taken T C true t ptr lk l tls w,
    with_tls-Runs T C a t _ _ _ w tls runs ∙ (rw (k.found, k.live)),
    taken-Warned l tls w k,
  )
