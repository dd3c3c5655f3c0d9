-- ===== src/Report.antt =====
-- The messages that Locksmith logs: the error code of lksmith_error and a constructor for each
-- message, with the pointers that it prints.
use lksmith.Base.{ℕ}
use lksmith.Code.{Errno}

pub data Message : Type 0 where
  -- lksmith_prelock_process_depends: lock, and the held lock
  unknown_held : ℕ → ℕ → Message
  already_held : ℕ → Message
  inversion : ℕ → ℕ → Message
  -- the other API functions
  no_tls : Message
  init_failed : ℕ → Message
  destroy_held : ℕ → Message
  destroy_in_use : ℕ → Message
  no_holder_data : ℕ → Message
  no_lock_data : ℕ → Message
  no_prelock_data : ℕ → Message
  no_held_space : ℕ → Message
  sleeping_under_spin : ℕ → Message
  unlock_unknown : ℕ → Message
  unlock_not_held : ℕ → Message
  not_in_held_list : ℕ → Message
  unlocked_unknown : ℕ → Message
  no_stored_backtrace : ℕ → Message
  -- condition variables: condition and mutex
  cond_insert_failed : ℕ → ℕ → Message
  cond_other_mutex : ℕ → ℕ → ℕ → Message
  cond_in_use : ℕ → Message
  cond_not_locked : ℕ → ℕ → Message
  -- a real pthreads function failed
  real_failed : ℕ → Message

pub record Report : Type 0 where
  pub code : Errno
  pub message : Message
