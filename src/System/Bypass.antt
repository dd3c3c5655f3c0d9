-- ===== src/System/Bypass.antt =====
-- The calls of a thread that Locksmith does not intercept: while lksmith.c takes a backtrace, what the
-- backtrace library locks is not checked.
use lksmith.Base.{ℕ, ◌≡◌, ap, false, some, Outcome, done}
use lksmith.Tree.{TreeLib}
use lksmith.Ignore.{TextLib}
use lksmith.World.{World, Tls, TlsAnswers, get_or_create_tls}
use lksmith.Api.{with_tls, lksmith_optional_init, lksmith_destroy, lksmith_check_locked}
use lksmith.Api.Locking.{lksmith_prelock, lksmith_postlock}
use lksmith.Api.Unlocking.{lksmith_preunlock, lksmith_postunlock}
use lksmith.System.{
  Call, optional_init, destroy, prelock, postlock, preunlock, postunlock, check_locked, init,
  set_thread_name, get_thread_name, cond_prewait, cond_postwait, cond_predestroy, thread_ends,
  state, perform,
}

-- The calls on locks by the thread `t`.
abbrev pub OnLock : ℕ → Call → Type 0
OnLock t (optional_init a memory s ptr recursive sleeper) = s ≡ t
OnLock t (destroy a s ptr) = s ≡ t
OnLock t (prelock a s ptr sleeper) = s ≡ t
OnLock t (postlock a memory s ptr error) = s ≡ t
OnLock t (preunlock a s ptr) = s ≡ t
OnLock t (postunlock a s ptr) = s ≡ t
OnLock t (check_locked a s ptr) = s ≡ t
OnLock t _ = ⊥

module _ (T : TreeLib) (C : TextLib) where
  with_tls-bypass {ℓ} :
      {R : Type ℓ}
      → (a : TlsAnswers) (t : ℕ) (no_memory bypass : R)
        (body : Tls → World T → Outcome (R × World T))
      → (w : World T) (tls : Tls) → w.tls t ≡ some tls
      → tls.intercept ≡ false
      → with_tls T C a t no_memory bypass body w ≡ done (bypass, w)
  unfolding with_tls get_or_create_tls
  with_tls-bypass a t no_memory bypass body w tls e off = rw (with_tls, get_or_create_tls, e, off)

  -- While the interception is off for a thread, no call on a lock by this thread changes anything, and
  -- each returns.
  pub perform-bypass :
      (t : ℕ) (tls : Tls) (w : World T) (c : Call)
      → w.tls t ≡ some tls
      → tls.intercept ≡ false
      → OnLock t c
      → perform T C c w ≡ done w
  unfolding lksmith_optional_init lksmith_destroy lksmith_prelock lksmith_postlock lksmith_preunlock
      lksmith_postunlock lksmith_check_locked
  perform-bypass t tls w (optional_init a memory s ptr recursive sleeper) e off mine =
      rw mine (ap (state T C) (with_tls-bypass a t _ _ _ w tls e off))
  perform-bypass t tls w (destroy a s ptr) e off mine =
      rw mine (ap (state T C) (with_tls-bypass a t _ _ _ w tls e off))
  perform-bypass t tls w (prelock a s ptr sleeper) e off mine =
      rw mine (ap (state T C) (with_tls-bypass a.tls t _ _ _ w tls e off))
  perform-bypass t tls w (postlock a memory s ptr error) e off mine =
      rw mine (ap (state T C) (with_tls-bypass a t _ _ _ w tls e off))
  perform-bypass t tls w (preunlock a s ptr) e off mine =
      rw mine (ap (state T C) (with_tls-bypass a t _ _ _ w tls e off))
  perform-bypass t tls w (postunlock a s ptr) e off mine =
      rw mine (ap (state T C) (with_tls-bypass a t _ _ _ w tls e off))
  perform-bypass t tls w (check_locked a s ptr) e off mine =
      rw mine (ap (state T C) (with_tls-bypass a t _ _ _ w tls e off))
  perform-bypass t tls w (init a s) e off mine = absurd mine
  perform-bypass t tls w (set_thread_name a s name) e off mine = absurd mine
  perform-bypass t tls w (get_thread_name a s) e off mine = absurd mine
  perform-bypass t tls w (cond_prewait memory cond mutex) e off mine = absurd mine
  perform-bypass t tls w (cond_postwait cnd) e off mine = absurd mine
  perform-bypass t tls w (cond_predestroy a j cond) e off mine = absurd mine
  perform-bypass t tls w (thread_ends s) e off mine = absurd mine
