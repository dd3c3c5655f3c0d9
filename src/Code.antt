-- ===== src/Code.antt =====
-- What the C functions return as an int: 0, an errno value, a negated errno value or -1.
use lksmith.Base.{ℕ, Bool, true, false}

-- The errno values that the source names; `other` is any other value of a pthreads function.
pub data Errno : Type 0 where
  eperm enoent eio enomem ebusy eexist einval edeadlk ewouldblock elibacc : Errno
  other : ℕ → Errno

pub data Code : Type 0 where
  ok : Code
  err : Errno → Code
  neg : Errno → Code
  minus_one : Code

-- `ret != 0`
abbrev pub failed : Code → Bool
failed ok = false
failed _ = true
