-- ===== src/System/Stale.antt =====
-- Calls of a thread whose storage the destructor has freed.
use lksmith.Base.{
  ℕ, ◌≡◌, refl, true, Option, none, some, Outcome, fault, dangling, ◌⊎◌, inl, inr, Option-cases,
  Bool-cases,
}
use lksmith.Code.{err, ok, enomem}
use lksmith.Tree.{TreeLib}
use lksmith.Ignore.{TextLib}
use lksmith.World.{World, Tls, TlsAnswers, get_or_create_tls, init_tls}
use lksmith.World.Frame.{Fresh}
use lksmith.Api.{
  with_tls, lksmith_optional_init, lksmith_destroy, lksmith_check_locked, lksmith_set_thread_name,
  lksmith_get_thread_name,
}
use lksmith.Api.Locking.{lksmith_prelock, lksmith_postlock}
use lksmith.Api.Unlocking.{lksmith_preunlock, lksmith_postunlock}
use lksmith.System.{
  Call, init, optional_init, destroy, prelock, postlock, preunlock, postunlock, check_locked,
  set_thread_name, get_thread_name, cond_prewait, cond_postwait, cond_predestroy, thread_ends,
  perform,
}

-- The thread of a call that first gets its storage.
abbrev pub caller : Call → Option ℕ
caller (init a t) = some t
caller (optional_init a memory t ptr recursive sleeper) = some t
caller (destroy a t ptr) = some t
caller (prelock a t ptr sleeper) = some t
caller (postlock a memory t ptr error) = some t
caller (preunlock a t ptr) = some t
caller (postunlock a t ptr) = some t
caller (check_locked a t ptr) = some t
caller (set_thread_name a t name) = some t
caller (get_thread_name a t) = some t
caller _ = none

module _ (T : TreeLib) (C : TextLib) where
  -- `t_improved_tls` of the thread is dangling.
  abbrev pub Stale : ℕ → World T → Type 0
  Stale t w = (w.tls t ≡ none) × (w.freed t ≡ true)

  pub get_or_create_tls-Stale :
      (a : TlsAnswers) (t : ℕ) (w : World T)
      → Stale t w
      → get_or_create_tls T C a t w ≡ fault dangling
  unfolding get_or_create_tls
  get_or_create_tls-Stale a t w s = rw (s.0, s.1, get_or_create_tls) refl

  with_tls-Stale {ℓ} :
      {R : Type ℓ} (a : TlsAnswers) (t : ℕ) (no_memory bypass : R)
      (body : Tls → World T → Outcome (R × World T)) (w : World T)
      → Stale t w
      → with_tls T C a t no_memory bypass body w ≡ fault dangling
  unfolding with_tls
  with_tls-Stale a t no_memory bypass body w s = rw (get_or_create_tls-Stale a t w s, with_tls) refl

  pub perform-Stale :
      (t : ℕ) (w : World T) (c : Call)
      → Stale t w
      → caller c ≡ some t
      → perform T C c w ≡ fault dangling
  unfolding init_tls lksmith_set_thread_name lksmith_get_thread_name lksmith_optional_init
      lksmith_destroy lksmith_prelock lksmith_postlock lksmith_preunlock lksmith_postunlock
      lksmith_check_locked
  perform-Stale t w c s mine = by_call c mine
    where
      at : (j : ℕ) → some j ≡ some t → Stale j w
      at j e = let same : t ≡ j = cc e in rw same at s

      by_call : (c : Call) → caller c ≡ some t → perform T C c w ≡ fault dangling
      by_call (init a j) e = rw (get_or_create_tls-Stale a j w (at j e)) refl
      by_call (optional_init a memory j ptr recursive sleeper) e =
          rw (with_tls-Stale a j (err enomem) ok _ w (at j e)) refl
      by_call (destroy a j ptr) e = rw (with_tls-Stale a j (err enomem) ok _ w (at j e)) refl
      by_call (prelock a j ptr sleeper) e =
          rw (with_tls-Stale a.tls j (err enomem) ok _ w (at j e)) refl
      by_call (postlock a memory j ptr error) e =
          rw (with_tls-Stale {R = Unit {0}} a j tt tt _ w (at j e)) refl
      by_call (preunlock a j ptr) e = rw (with_tls-Stale a j (err enomem) ok _ w (at j e)) refl
      by_call (postunlock a j ptr) e =
          rw (with_tls-Stale {R = Unit {0}} a j tt tt _ w (at j e)) refl
      by_call (check_locked a j ptr) e = rw (with_tls-Stale a j (err enomem) ok _ w (at j e)) refl
      by_call (set_thread_name a j name) e = rw (get_or_create_tls-Stale a j w (at j e)) refl
      by_call (get_thread_name a j) e = rw (get_or_create_tls-Stale a j w (at j e)) refl
      by_call (cond_prewait memory cond mutex) e = cc e
      by_call (cond_postwait cnd) e = cc e
      by_call (cond_predestroy a j cond) e = cc e
      by_call (thread_ends j) e = cc e

  pub Fresh-or-Stale : (t : ℕ) (w : World T) → Fresh T C t w ⊎ Stale t w
  Fresh-or-Stale t w = elim (Option-cases (w.tls t)) [
    | inr (tls, e) ↦ inl (λ n. cc (e, n))
    | inl e ↦ elim (Bool-cases (w.freed t)) [ inl f ↦ inr (e, f) | inr f ↦ inl (λ n. f) ]
  ]
