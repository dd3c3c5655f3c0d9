-- ===== src/System.antt =====
-- The library as its callers see it: any threads call the API functions of lksmith.c in any order.
-- Each function runs under a lock of Locksmith from its first to its last access of shared state, so
-- the calls of several threads interleave whole.
pub mod Links
pub mod Sources
pub mod Invariant
pub mod Opening
pub mod Inserts
pub mod Taking
pub mod Linking
pub mod Giving
pub mod Waits
pub mod Stale
pub mod Safety
pub mod Detection
pub mod Bypass
pub mod Trace
use lksmith.Base.{
  ℕ, zero, suc, ◌≡◌, ◌≢◌, Bool, false, [], ◌++◌, Option, none, some, Outcome, done, fault,
  null_deref, ◌>>=◌, if◌then◌else◌,
}
use lksmith.Code.{Code}
use lksmith.Lock.{Text, Heap}
use lksmith.Tree.{TreeLib}
use lksmith.Graph.{Graph}
use lksmith.Cond.{Cond, lksmith_cond_prewait, lksmith_cond_postwait}
use lksmith.Api.Predestroy.{lksmith_cond_predestroy}
use lksmith.Ignore.{TextLib}
use lksmith.World.{World, TlsAnswers, init_tls, lksmith_tls_destroy}
use lksmith.Api.{
  lksmith_optional_init, lksmith_destroy, lksmith_check_locked, lksmith_set_thread_name,
  lksmith_get_thread_name,
}
use lksmith.World.Frame.{Fresh}
use lksmith.Api.Locking.{LockAnswers, lksmith_prelock, lksmith_postlock}
use lksmith.Api.Unlocking.{lksmith_preunlock, lksmith_postunlock}

-- A call with its arguments and what the environment answers; `t` is the calling thread. The functions
-- that lksmith.h declares without a definition are left out.
pub data Call : Type 0 where
  init : (a : TlsAnswers) (t : ℕ) → Call
  optional_init : (a : TlsAnswers) (memory : Option ℕ) (t ptr : ℕ) (recursive sleeper : Bool) → Call
  destroy : (a : TlsAnswers) (t ptr : ℕ) → Call
  prelock : (a : LockAnswers) (t ptr : ℕ) (sleeper : Bool) → Call
  postlock : (a : TlsAnswers) (held_memory : Bool) (t ptr : ℕ) (error : Code) → Call
  preunlock : (a : TlsAnswers) (t ptr : ℕ) → Call
  postunlock : (a : TlsAnswers) (t ptr : ℕ) → Call
  check_locked : (a : TlsAnswers) (t ptr : ℕ) → Call
  set_thread_name : (a : TlsAnswers) (t : ℕ) (name : Text) → Call
  get_thread_name : (a : TlsAnswers) (t : ℕ) → Call
  cond_prewait : (memory : Option ℕ) (cond mutex : ℕ) → Call
  cond_postwait : (cnd : ℕ) → Call
  cond_predestroy : (a : TlsAnswers) (t cond : ℕ) → Call
  -- the destructor of its storage
  thread_ends : (t : ℕ) → Call

-- calloc returns memory that is not in use.
abbrev pub Unused {ℓ} : {A : Type ℓ} → (ℕ → Option A) → Option ℕ → Type ℓ
Unused h none = Unit
Unused h (some a) = h a ≡ none

module _ (T : TreeLib) (C : TextLib) where
  -- The state after a call; before the library is initialized r_pthread_mutex_lock is null, which the
  -- functions on condition variables call. The result of a call
  -- is for the caller.
  abbrev pub state {ℓ} : {R : Type ℓ} → Outcome (R × World T) → Outcome (World T)
  state o = o >>= λ r. done r.1

  abbrev pub perform : Call → World T → Outcome (World T)
  perform (init a t) w = state (init_tls T C a t w)
  perform (optional_init a memory t ptr recursive sleeper) w =
      state (lksmith_optional_init T C a memory t ptr recursive sleeper w)
  perform (destroy a t ptr) w = state (lksmith_destroy T C a t ptr w)
  perform (prelock a t ptr sleeper) w = state (lksmith_prelock T C a t ptr sleeper w)
  perform (postlock a memory t ptr error) w = state (lksmith_postlock T C a memory t ptr error w)
  perform (preunlock a t ptr) w = state (lksmith_preunlock T C a t ptr w)
  perform (postunlock a t ptr) w = state (lksmith_postunlock T C a t ptr w)
  perform (check_locked a t ptr) w = state (lksmith_check_locked T C a t ptr w)
  perform (set_thread_name a t name) w = state (lksmith_set_thread_name T C a t name w)
  perform (get_thread_name a t) w = state (lksmith_get_thread_name T C a t w)
  perform (cond_prewait memory cond mutex) w =
      let waiting = lksmith_cond_prewait T memory cond mutex w.conds >>= λ p.
      done (record w { conds = p.conds; log = w.log ++ p.log }) in
      if w.initialized then waiting else fault null_deref
  perform (cond_postwait cnd) w =
      let waited = lksmith_cond_postwait T cnd w.conds >>= λ s. done (record w { conds = s }) in
      if w.initialized then waited else fault null_deref
  perform (cond_predestroy a t cond) w = state (lksmith_cond_predestroy T C a t cond w)
  perform (thread_ends t) w = done (lksmith_tls_destroy T C t w)

  -- The thread of a call did not get its storage destroyed before.
  abbrev pub Living : Call → World T → Type 0
  Living (init a t) w = Fresh T C t w
  Living (optional_init a memory t ptr recursive sleeper) w = Fresh T C t w
  Living (destroy a t ptr) w = Fresh T C t w
  Living (prelock a t ptr sleeper) w = Fresh T C t w
  Living (postlock a memory t ptr error) w = Fresh T C t w
  Living (preunlock a t ptr) w = Fresh T C t w
  Living (postunlock a t ptr) w = Fresh T C t w
  Living (check_locked a t ptr) w = Fresh T C t w
  Living (set_thread_name a t name) w = Fresh T C t w
  Living (get_thread_name a t) w = Fresh T C t w
  Living (cond_predestroy a t cond) w = Fresh T C t w
  Living _ w = Unit

  -- What a call relies on: fresh memory, a mutex that is not null, and that lksmith_cond_postwait ends
  -- a wait that lksmith_cond_prewait began.
  abbrev pub Allowed : Call → World T → Type 0
  Allowed (optional_init a memory t ptr recursive sleeper) w = Unused w.graph.heap memory
  Allowed (prelock a t ptr sleeper) w = Unused w.graph.heap a.lock_memory
  Allowed (cond_prewait memory cond mutex) w = (mutex ≢ 0) × Unused w.conds.heap memory
  Allowed (cond_postwait cnd) w = (c : Cond) × (w.conds.heap cnd ≡ some c) × (c.refcnt ≢ 0)
  Allowed _ w = Unit

  -- The globals as the program starts with them.
  abbrev pub unstarted : World T
  unstarted = record {
    initialized = false;
    graph = record { tree = T.empty; heap = λ a. none; color = 0 };
    conds = record { tree = T.empty; heap = λ a. none };
    ignored_frames = [];
    ignored_patterns = [];
    tls = λ t. none;
    freed = λ t. false;
    log = [];
  }

  -- The states after `n` calls.
  pub data Reach : ℕ → World T → Type 0 where
    start : Reach zero unstarted
    after :
        {n : ℕ} {w w' : World T} (c : Call)
        → Reach n w
        → Allowed c w
        → perform c w ≡ done w'
        → Reach (suc n) w'
