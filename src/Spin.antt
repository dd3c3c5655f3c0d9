-- ===== src/Spin.antt =====
-- The spin lock of util.c (simple_spin_lock and simple_spin_unlock), taken by any number of threads.
pub mod Exclusion
use lksmith.Base.{ℕ, ◌≡◌, Bool, true, false, ◌==◌, if◌then◌else◌}

-- __sync_bool_compare_and_swap: whether it swapped, and what is in memory then.
unfoldable pub compare_and_swap : ℕ → ℕ → ℕ → Bool × ℕ
compare_and_swap lock expected new = if lock == expected then (true, new) else (false, lock)

-- One round of the loop; the caller returns if it swapped, and sleeps otherwise.
unfoldable pub simple_spin_lock : ℕ → Bool × ℕ
unfolding compare_and_swap
simple_spin_lock lock = compare_and_swap lock 0 1

-- The result of the compare-and-swap is ignored.
unfoldable pub simple_spin_unlock : ℕ → ℕ
unfolding compare_and_swap
simple_spin_unlock lock = (compare_and_swap lock 1 0).1

-- Where a thread is: `trying` before the compare-and-swap, `sleeping` in nanosleep, and `inside`
-- from the return of simple_spin_lock to the call of simple_spin_unlock.
pub data Place : Type 0 where
  outside trying sleeping inside : Place

-- The moves of one thread, one atomic access at a time.
pub data Move (lock : ℕ) : Place → ℕ → Place → Type 0 where
  call : Move lock outside lock trying
  take : (simple_spin_lock lock).0 ≡ true → Move lock trying (simple_spin_lock lock).1 inside
  miss : (simple_spin_lock lock).0 ≡ false → Move lock trying (simple_spin_lock lock).1 sleeping
  wake : Move lock sleeping lock trying
  leave : Move lock inside (simple_spin_unlock lock) outside

pub record Threads : Type 0 where
  pub lock : ℕ
  pub place : ℕ → Place

abbrev pub moved : (ℕ → Place) → ℕ → Place → ℕ → Place
moved place i p j = if i == j then p else place j

pub data Step (s : Threads) : Threads → Type 0 where
  pick :
      (i : ℕ) {lock : ℕ} {p : Place}
      → Move s.lock (s.place i) lock p
      → Step s (record { lock = lock; place = moved s.place i p })

-- Any number of steps of any threads.
pub data Steps (s : Threads) : Threads → Type 0 where
  start : Steps s s
  later : {u v : Threads} → Steps s u → Step u v → Steps s v

-- A free lock and no thread near it.
abbrev pub unlocked : Threads
unlocked = record { lock = 0; place = λ i. outside }
