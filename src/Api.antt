-- ===== src/Api.antt =====
-- The functions that the handlers call (lksmith.c, lksmith_optional_init, lksmith_destroy,
-- lksmith_check_locked and the thread names).
pub mod Locking
pub mod Unlocking
pub mod Calls
pub mod Enter
pub mod Taken
pub mod Cycle
pub mod Undone
pub mod Naming
pub mod Warned
pub mod Predestroy
use lksmith.Base.{
  ℕ, zero, suc, ◌+◌, Bool, true, false, not, List, [], ◌∷◌, ◌++◌, Option, none, some, ◌==◌,
  if◌then◌else◌, Outcome, done, fault, dangling, ◌>>=◌, take,
}
use lksmith.Code.{Code, Errno, ok, err, minus_one, enomem, enoent, ebusy, failed}
use lksmith.Lock.{Text, Lock, Holder, store}
use lksmith.Tree.{TreeLib}
use lksmith.Held.{tls_contains_lid}
use lksmith.Graph.{Graph, lksmith_find, lksmith_insert, lksmith_forget}
use lksmith.Ignore.{TextLib}
use lksmith.Report.{Report, Message, no_tls, init_failed, destroy_held, destroy_in_use}
use lksmith.World.{World, Tls, TlsAnswers, get_or_create_tls, log_report}

module _ (T : TreeLib) (C : TextLib) where
  -- The opening of each function: a failure to get the storage is logged, and a thread whose calls
  -- are not intercepted is let through.
  unfoldable pub with_tls {ℓ} :
      {R : Type ℓ}
      → TlsAnswers
      → ℕ
      → R
      → R
      → (Tls → World T → Outcome (R × World T))
      → World T
      → Outcome (R × World T)
  with_tls a t no_memory bypass body w = get_or_create_tls T C a t w >>= λ r. elim r.0 [
    | none ↦ done (no_memory, log_report T C enomem no_tls r.1)
    | some tls ↦ if tls.intercept then body tls r.1 else done (bypass, r.1)
  ]

  -- The logging at the end of lksmith_optional_init.
  unfoldable pub init_result : ℕ → Code → World T → Code × World T
  init_result ptr (err e) w = (err e, log_report T C e (init_failed ptr) w)
  init_result ptr code w = (code, w)

  unfoldable pub lksmith_optional_init :
      TlsAnswers → Option ℕ → ℕ → ℕ → Bool → Bool → World T → Outcome (Code × World T)
  unfolding with_tls init_result
  lksmith_optional_init a mem t ptr recursive sleeper = with_tls a t (err enomem) ok λ tls w.
      let (code, _, g) = lksmith_insert T mem ptr recursive sleeper w.graph in
      done (init_result ptr code (record w { graph = g }))

  -- lksmith_destroy, for the structure at `lk`.
  unfoldable pub destroy_at : Tls → ℕ → ℕ → Lock → World T → Outcome (Code × World T)
  destroy_at tls ptr lk l w = elim l.holders [
    | h ∷ hs ↦ done (
      err ebusy,
      if tls_contains_lid tls.held ptr
          then log_report T C ebusy (destroy_held ptr) w
          else log_report T C ebusy (destroy_in_use ptr) w,
    )
    | [] ↦ lksmith_forget T ptr lk w.graph >>= λ g. done (ok, record w { graph = g })
  ]

  unfoldable pub lksmith_destroy : TlsAnswers → ℕ → ℕ → World T → Outcome (Code × World T)
  unfolding with_tls destroy_at
  lksmith_destroy a t ptr = with_tls a t (err enomem) ok λ tls w.
      elim (lksmith_find T ptr w.graph) [
        | none ↦ done (err enoent, w)
        | some lk ↦ elim (w.graph.heap lk) [
          | none ↦ fault dangling
          | some l ↦ destroy_at tls ptr lk l w
        ]
      ]

  unfoldable pub lksmith_check_locked : TlsAnswers → ℕ → ℕ → World T → Outcome (Code × World T)
  unfolding with_tls
  lksmith_check_locked a t ptr =
      with_tls a t (err enomem) ok
        λ tls w. done (if tls_contains_lid tls.held ptr then ok else minus_one, w)

  -- snprintf into a buffer of LKSMITH_THREAD_NAME_MAX = 16 characters with the final NUL.
  abbrev pub thread_name : Text → Text
  thread_name name = take 15 name

  unfoldable pub lksmith_set_thread_name :
      TlsAnswers → ℕ → Text → World T → Outcome (Code × World T)
  lksmith_set_thread_name a t name w = get_or_create_tls T C a t w >>= λ r. elim r.0 [
    | none ↦ done (err enomem, log_report T C enomem no_tls r.1)
    | some tls ↦
        let w' = r.1 in
        done (ok, record w' { tls = store t (record tls { name = thread_name name }) w'.tls })
  ]

  -- `none` is a null result.
  unfoldable pub lksmith_get_thread_name :
      TlsAnswers → ℕ → World T → Outcome (Option Text × World T)
  lksmith_get_thread_name a t w = get_or_create_tls T C a t w >>= λ r. elim r.0 [
    | none ↦ done (none, log_report T C enomem no_tls r.1)
    | some tls ↦ done (some tls.name, r.1)
  ]

  -- The array and its length are the list.
  pub lksmith_get_ignored_frames : TlsAnswers → ℕ → World T → Outcome (Code × List Text × World T)
  lksmith_get_ignored_frames a t w = get_or_create_tls T C a t w >>= λ r. elim r.0 [
    | none ↦ done (err enomem, [], log_report T C enomem no_tls r.1)
    | some tls ↦ let w' = r.1 in done (ok, w'.ignored_frames, w')
  ]

  unfoldable pub lksmith_get_ignored_frame_patterns :
      TlsAnswers → ℕ → World T → Outcome (Code × List Text × World T)
  lksmith_get_ignored_frame_patterns a t w = get_or_create_tls T C a t w >>= λ r. elim r.0 [
    | none ↦ done (err enomem, [], log_report T C enomem no_tls r.1)
    | some tls ↦ let w' = r.1 in done (ok, w'.ignored_patterns, w')
  ]
