-- ===== src/Tests/Conds.antt =====
-- A condition variable 70 whose structure is at the address 700, with the mutex 10.
use lksmith.Base.{
  ℕ, true, false, fault, null_deref, ◌+◌, ◌^◌, ◌<◌, ◌≡◌, ◌≢◌, refl, ◌⊎◌, inl, inr, [], ◌∷◌, none,
  some, arith, done,
}
use lksmith.Lock.{store}
use lksmith.Tree.Assoc.{assoc_lib}
use lksmith.Graph.Update.{store-cases}
use lksmith.Api.Predestroy.{Predestroyed, predestroy_iff, lksmith_cond_predestroy}
use lksmith.World.{World}
use lksmith.Tests.Threads.{started, answers}
use lksmith.Tests.Ignored.{plain_lib}
use lksmith.Cond.{Cond, Conds, Waits, lksmith_cond_prewait, lksmith_cond_postwait}
use lksmith.Cond.Laws.{IsWf, waiting, leave}
use lksmith.Cond.Contract.{Joined}
use lksmith.Cond.Refines.{prewait-Joined, postwait-leave}

abbrev pub in_use : Cond
in_use = record { ptr = 70; lock = 10; refcnt = 2 }

abbrev pub waited : Conds assoc_lib
waited = record { tree = (70, 700) ∷ []; heap = store 700 in_use (λ a. none) }

only_in_use : (a : ℕ) (c : Cond) → waited.heap a ≡ some c → (a ≡ 700) × (c ≡ in_use)
only_in_use a c e = pick (store-cases 700 a in_use c (λ b. none) e)
  where
    pick : ((a ≡ 700) × (c ≡ in_use)) ⊎ ((700 ≢ a) × (none ≡ some c)) → (a ≡ 700) × (c ≡ in_use)
    pick (inl p) = p
    pick (inr (n, f)) = cc f

pub waited-IsWf : IsWf assoc_lib waited
waited-IsWf = record {
  find-live = λ p a e. known p a e;
  live-find = λ a c e. let (p, f) = only_in_use a c e in rw (p, f) refl;
  idle = λ a c e.
      let (p, f) = only_in_use a c e in rw f (λ z. absurd (omega arith), λ z. absurd (omega arith));
}
  where
    known :
        (p a : ℕ)
        → assoc_lib.find p waited.tree ≡ some a
        → (c : Cond) × (waited.heap a ≡ some c) × (c.ptr ≡ p)
    known p a e = (in_use, ground arith, ground arith)

pub few : (a : ℕ) (c : Cond) → waited.heap a ≡ some c → c.refcnt + 1 < 2 ^ 64
few a c e = let (p, f) = only_in_use a c e in rw f (omega arith)

prewait-Joined_example :
    (r : Waits assoc_lib) × (lksmith_cond_prewait assoc_lib (some 800) 70 11 waited ≡ done r)
    × Joined assoc_lib waited 70 11 r
prewait-Joined_example =
    prewait-Joined assoc_lib waited 70 11 800 waited-IsWf (omega arith) few refl

postwait-leave_example :
    (s : Conds assoc_lib) × (lksmith_cond_postwait assoc_lib 700 waited ≡ done s)
    × IsWf assoc_lib s
    × (waiting assoc_lib s 70 ≡ leave (waiting assoc_lib waited 70))
    × ((p : ℕ) → p ≢ 70 → waiting assoc_lib s p ≡ waiting assoc_lib waited p)
postwait-leave_example =
    postwait-leave assoc_lib waited 700 in_use waited-IsWf refl (omega arith) (omega arith)

abbrev in_wait : World assoc_lib
in_wait = record started { conds = waited }

predestroy_iff_example :
    (true ≡ false)
      × (lksmith_cond_predestroy assoc_lib plain_lib answers 1 70 in_wait ≡ fault null_deref)
    ⊎ (true ≡ true) × Predestroyed assoc_lib plain_lib answers 1 70 in_wait
predestroy_iff_example =
    predestroy_iff assoc_lib plain_lib answers 1 70 in_wait waited-IsWf (λ e. refl)
