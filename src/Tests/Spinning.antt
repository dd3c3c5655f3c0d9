-- ===== src/Tests/Spinning.antt =====
-- Two threads at the spin lock: thread 1 is inside, thread 2 has missed and sleeps.
use lksmith.Base.{ℕ, ◌≡◌, refl, inr}
use lksmith.Spin.{
  simple_spin_lock, compare_and_swap, trying, sleeping, inside, call, take, miss, Threads, moved,
  pick, Steps, start, later, unlocked,
}
use lksmith.Spin.Exclusion.{spin_exclusion, spin_progress}

abbrev contended : Threads
contended = record {
  lock = 1;
  place = moved (moved (moved (moved unlocked.place 1 trying) 2 trying) 1 inside) 2 sleeping;
}

contended_reached : Steps unlocked contended
unfolding simple_spin_lock compare_and_swap
contended_reached =
    later (later (later (later start (pick 1 call)) (pick 2 call)) (pick 1 (take refl)))
      (pick 2 (miss refl))

spin_exclusion_example : ◌≡◌ {A = ℕ} 1 1
spin_exclusion_example = spin_exclusion contended 1 1 contended_reached refl refl

spin_progress_example : (u : Threads) × Steps contended u × (u.place 2 ≡ inside)
spin_progress_example = spin_progress contended 2 contended_reached (inr refl)
