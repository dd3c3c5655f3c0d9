-- ===== src/Handler/Refused.antt =====
-- When the wrappers of the unlock and destroy functions leave the real function alone.
use lksmith.Base.{
  ℕ, ◌≡◌, refl, ◌∙◌, ◌⊎◌, inl, inr, false, List, [], ◌∷◌, none, some, done, Bool-cases,
  Option-cases, if◌then◌else◌,
}
use lksmith.Code.{Code, ok, err, enoent, eperm, ebusy}
use lksmith.Lock.{Lock, Holder}
use lksmith.Tree.{TreeLib}
use lksmith.Graph.{Graph, IsWf, lksmith_find, lksmith_forget}
use lksmith.Graph.Forget.{lksmith_forget-IsWf}
use lksmith.Held.{tls_contains_lid}
use lksmith.Ignore.{TextLib}
use lksmith.Report.{unlock_unknown, unlock_not_held, destroy_held, destroy_in_use, real_failed}
use lksmith.World.{World, Tls, TlsAnswers, log_report}
use lksmith.Api.{lksmith_destroy, destroy_at}
use lksmith.Api.Calls.{Known, Known-ptr, Runs, with_tls-Runs}
use lksmith.Api.Unlocking.{lksmith_preunlock, preunlock_body}
use lksmith.Handler.{
  GiveAnswers, mutex_destroy, give_lock, pthread_mutex_unlock, pthread_mutex_destroy, log_failure,
}

module _ (T : TreeLib) (C : TextLib) (t ptr : ℕ) (tls : Tls) where
  preunlock_refused :
      (a : TlsAnswers) (w : World T)
      → Runs T C t tls w
      → IsWf T w.graph
      → tls_contains_lid tls.held ptr ≡ false
      → (lksmith_preunlock T C a t ptr w
            ≡ done (err enoent, log_report T C enoent (unlock_unknown ptr) w))
          × (T.find ptr w.graph.tree ≡ none)
        ⊎ (lksmith_preunlock T C a t ptr w
            ≡ done (err eperm, log_report T C eperm (unlock_not_held ptr) w))
          × ((lk : ℕ) × (T.find ptr w.graph.tree ≡ some lk))
  unfolding lksmith_preunlock preunlock_body lksmith_find
  preunlock_refused a w runs wf out = elim (Option-cases (T.find ptr w.graph.tree)) [
    | inl e ↦ inl (with_tls-Runs T C a t _ _ _ w tls runs ∙ (rw (preunlock_body, e)), e)
    | inr (lk, e) ↦
        let (l, live, p) = wf.find-live ptr lk e in
        inr (with_tls-Runs T C a t _ _ _ w tls runs ∙ (rw (preunlock_body, e, live, out)), (lk, e))
  ]

  -- A thread that does not hold the mutex cannot unlock it: pthread_mutex_unlock returns ENOENT for an
  -- unknown mutex and EPERM for a known one, logs that, changes nothing else, and never calls the
  -- real function. (For a thread with storage whose calls are intercepted and a well-formed graph.)
  pub pthread_mutex_unlock_refused :
      (a : GiveAnswers T C) (w : World T)
      → Runs T C t tls w
      → IsWf T w.graph
      → tls_contains_lid tls.held ptr ≡ false
      → (pthread_mutex_unlock T C a t ptr w
            ≡ done (err enoent, log_report T C enoent (unlock_unknown ptr) w, []))
          × (T.find ptr w.graph.tree ≡ none)
        ⊎ (pthread_mutex_unlock T C a t ptr w
            ≡ done (err eperm, log_report T C eperm (unlock_not_held ptr) w, []))
          × ((lk : ℕ) × (T.find ptr w.graph.tree ≡ some lk))
  unfolding pthread_mutex_unlock give_lock
  pthread_mutex_unlock_refused a w runs wf out = elim (preunlock_refused a.pre w runs wf out) [
    | inl (e, n) ↦ inl (rw e refl, n)
    | inr (e, n) ↦ inr (rw e refl, n)
  ]

  abbrev busy : World T → World T
  busy w =
      if tls_contains_lid tls.held ptr
      then log_report T C ebusy (destroy_held ptr) w
      else log_report T C ebusy (destroy_in_use ptr) w

  busy-graph : (w : World T) → (busy w).graph ≡ w.graph
  busy-graph w = elim (Bool-cases (tls_contains_lid tls.held ptr)) [
    | inl e ↦ rw e refl
    | inr e ↦ rw e refl
  ]

  destroy_unknown :
      (a : TlsAnswers) (w : World T)
      → Runs T C t tls w
      → T.find ptr w.graph.tree ≡ none
      → lksmith_destroy T C a t ptr w ≡ done (err enoent, w)
  unfolding lksmith_destroy lksmith_find
  destroy_unknown a w runs e = with_tls-Runs T C a t _ _ _ w tls runs ∙ (rw e)

  destroy_busy :
      (a : TlsAnswers) (w : World T) (lk : ℕ) (l : Lock) (h : Holder) (hs : List Holder)
      → Runs T C t tls w
      → Known T lk ptr l w.graph
      → l.holders ≡ h ∷ hs
      → lksmith_destroy T C a t ptr w ≡ done (err ebusy, busy w)
  unfolding lksmith_destroy destroy_at lksmith_find
  destroy_busy a w lk l h hs runs k e =
      with_tls-Runs T C a t _ _ _ w tls runs ∙ (rw (k.found, k.live, destroy_at, e))

  pub destroy_free :
      (a : TlsAnswers) (w : World T) (lk : ℕ) (l : Lock) (g : Graph T)
      → Runs T C t tls w
      → Known T lk ptr l w.graph
      → l.holders ≡ []
      → lksmith_forget T ptr lk w.graph ≡ done g
      → lksmith_destroy T C a t ptr w ≡ done (ok, record w { graph = g })
  unfolding lksmith_destroy destroy_at lksmith_find
  destroy_free a w lk l g runs k e forget =
      with_tls-Runs T C a t _ _ _ w tls runs ∙ (rw (k.found, k.live, destroy_at, e, forget))

  -- pthread_mutex_destroy of an unknown mutex only calls the real function. Of a mutex that a thread
  -- holds or waits for, it returns EBUSY, keeps the graph and does not call the real function. Of any
  -- other known mutex, it calls the real function and gives its code; the graph stays well-formed,
  -- the mutex is unknown and its structure is freed. (For a thread with storage whose calls are
  -- intercepted and a well-formed graph.)
  pub pthread_mutex_destroy_lem :
      (a : TlsAnswers) (real : Code) (w : World T)
      → Runs T C t tls w
      → IsWf T w.graph
      → (T.find ptr w.graph.tree ≡ none
          → pthread_mutex_destroy T C a real t ptr w
            ≡ done (real, log_failure T C real (real_failed ptr) w, mutex_destroy ∷ []))
        × ((lk : ℕ) (l : Lock) (h : Holder) (hs : List Holder)
            → Known T lk ptr l w.graph
            → l.holders ≡ h ∷ hs
            → (w' : World T) × (pthread_mutex_destroy T C a real t ptr w ≡ done (err ebusy, w', []))
              × (w'.graph ≡ w.graph))
        × ((lk : ℕ) (l : Lock)
            → Known T lk ptr l w.graph
            → l.holders ≡ []
            → (w' : World T) × (pthread_mutex_destroy T C a real t ptr w
                ≡ done (real, log_failure T C real (real_failed ptr) w', mutex_destroy ∷ []))
              × IsWf T w'.graph
              × (T.find ptr w'.graph.tree ≡ none)
              × (w'.graph.heap lk ≡ none))
  unfolding pthread_mutex_destroy
  pthread_mutex_destroy_lem a real w runs wf = (
    (λ e. rw (destroy_unknown a w runs e) refl),
    (λ lk l h hs k e. (busy w, rw (destroy_busy a w lk l h hs runs k e) refl, busy-graph w)),
    (λ lk l k e.
        let own = Known-ptr T lk ptr l w.graph k in
        let (g, forget, wf', unknown, freed, _) =
          lksmith_forget-IsWf T w.graph ptr lk l wf k.live own in
        (
          record w { graph = g },
          rw (destroy_free a w lk l g runs k e forget) refl,
          wf',
          unknown,
          freed,
        )),
  )
