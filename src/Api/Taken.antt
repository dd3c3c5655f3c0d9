-- ===== src/Api/Taken.antt =====
-- lksmith_postlock after the real function took the lock.
use lksmith.Base.{
  ℕ, ◌+◌, ◌%◌, ◌^◌, ◌≡◌, refl, sym, ◌∙◌, inl, inr, Bool, true, false, [], ◌∷◌, ◌++◌, some, done,
  Bool-cases, ltb, not, ◌&&◌, if◌then◌else◌, subst,
}
use lksmith.Code.{ok, ewouldblock}
use lksmith.Lock.{Lock, store}
use lksmith.Tree.{TreeLib}
use lksmith.Held.{tls_append_held}
use lksmith.Graph.{lksmith_find}
use lksmith.Graph.Update.{store_self}
use lksmith.Ignore.{TextLib}
use lksmith.World.{World, Tls, TlsAnswers, log_report}
use lksmith.Report.{sleeping_under_spin}
use lksmith.Api.Calls.{Known, Known-store, Runs, with_lock, with_tls-Runs}
use lksmith.Api.Locking.{max_nlock, lksmith_postlock, postlock_taken, postlock_spins}

module _ (T : TreeLib) (C : TextLib) (t lk ptr : ℕ) where
  -- What a thread has after the real lock function: the lock is held once more, and counted if it
  -- is a spin lock.
  abbrev pub taken : Tls → Bool → Tls
  taken tls sleeper = record tls {
    held = tls.held ++ ptr ∷ [];
    num_spins = if not sleeper then (tls.num_spins + 1) % 2 ^ 63 else tls.num_spins;
  }

  pub record Stands (l : Lock) (tls : Tls) (w : World T) : Type 0 where
    pub after : Lock
    pub known : Known T lk ptr after w.graph
    pub holders : after.holders ≡ l.holders
    pub sleeper : after.props.sleeper ≡ l.props.sleeper
    pub storage : w.tls t ≡ some tls

  -- The three ways through the end of lksmith_postlock.
  pub spins_warn :
      (l : Lock) (tls : Tls) (w : World T)
      → l.props.sleeper ≡ true
      → (ltb 0 tls.num_spins && not l.props.spin_warn) ≡ true
      → let p = l.props in
        postlock_spins T C t ptr lk l tls w
        ≡ log_report T C ewouldblock (sleeping_under_spin ptr) (record w {
          graph = with_lock T w.graph lk (record l { props = record p { spin_warn = true } });
          tls = store t tls w.tls;
        })
  unfolding postlock_spins
  spins_warn l tls w s warn = rw (postlock_spins, s, warn)

  pub spins_calm :
      (l : Lock) (tls : Tls) (w : World T)
      → l.props.sleeper ≡ true
      → (ltb 0 tls.num_spins && not l.props.spin_warn) ≡ false
      → postlock_spins T C t ptr lk l tls w ≡ record w { tls = store t tls w.tls }
  unfolding postlock_spins
  spins_calm l tls w s calm = rw (postlock_spins, s, calm)

  pub spins_count :
      (l : Lock) (tls : Tls) (w : World T)
      → l.props.sleeper ≡ false
      → postlock_spins T C t ptr lk l tls w
        ≡ record w { tls = store t (record tls { num_spins = (tls.num_spins + 1) % 2 ^ 63 }) w.tls }
  unfolding postlock_spins
  spins_count l tls w s = rw (postlock_spins, s)

  spins-Stands :
      (l : Lock) (tls : Tls) (w : World T) (b : Bool)
      → l.props.sleeper ≡ b
      → Known T lk ptr l w.graph
      → let stored : Tls = record tls { held = tls.held ++ ptr ∷ [] } in
        Stands l (taken tls b) (postlock_spins T C t ptr lk l stored w)
  spins-Stands l tls w true s k =
      let stored : Tls = record tls { held = tls.held ++ ptr ∷ [] } in
      let p = l.props in
      let l' : Lock = record l { props = record p { spin_warn = true } } in
      elim (Bool-cases (ltb 0 tls.num_spins && not l.props.spin_warn)) [
        | inl warn ↦ subst (Stands l stored) (sym (spins_warn l stored w s warn)) (record {
          after = l';
          known = Known-store T lk ptr l l' w.graph k refl refl refl;
          holders = refl;
          sleeper = refl;
          storage = store_self t stored w.tls;
        })
        | inr calm ↦ subst (Stands l stored) (sym (spins_calm l stored w s calm)) (record {
          after = l;
          known = k;
          holders = refl;
          sleeper = refl;
          storage = store_self t stored w.tls;
        })
      ]
  spins-Stands l tls w false s k =
      let stored : Tls = record tls { held = tls.held ++ ptr ∷ [] } in
      subst (Stands l (taken tls false)) (sym (spins_count l stored w s)) (record {
        after = l;
        known = k;
        holders = refl;
        sleeper = refl;
        storage = store_self t (taken tls false) w.tls;
      })

  taken-Stands :
      (l : Lock) (tls : Tls) (w : World T)
      → Known T lk ptr l w.graph
      → Stands l (taken tls l.props.sleeper) (postlock_taken T C true t ptr lk l tls w)
  unfolding postlock_taken tls_append_held
  taken-Stands l tls w k =
      let p = l.props in
      let l' : Lock = record l {
        props = record p { nlock = if ltb p.nlock max_nlock then p.nlock + 1 else p.nlock };
      } in
      let s =
        spins-Stands l' tls (record w { graph = with_lock T w.graph lk l' }) l.props.sleeper refl
          (Known-store T lk ptr l l' w.graph k refl refl refl) in
      record {
        after = s.after;
        known = s.known;
        holders = s.holders;
        sleeper = s.sleeper;
        storage = s.storage;
      }

  -- lksmith_postlock after the real function took the lock.
  pub postlock-Stands :
      (a : TlsAnswers) (l : Lock) (tls : Tls) (w : World T)
      → Runs T C t tls w
      → Known T lk ptr l w.graph
      → (w' : World T) × (lksmith_postlock T C a true t ptr ok w ≡ done (tt, w'))
        × Stands l (taken tls l.props.sleeper) w'
  unfolding lksmith_postlock lksmith_find
  postlock-Stands a l tls w runs k = (
    postlock_taken T C true t ptr lk l tls w,
    with_tls-Runs T C a t _ _ _ w tls runs ∙ (rw (k.found, k.live)),
    taken-Stands l tls w k,
  )
