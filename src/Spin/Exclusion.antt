-- ===== src/Spin/Exclusion.antt =====
-- On the moves of threads at the spin lock.
use lksmith.Base.{ℕ, ◌≡◌, refl, sym, ◌∙◌, ◌⊎◌, inl, inr, true, arith, ==_refl, subst}
use lksmith.Spin.{
  simple_spin_lock, simple_spin_unlock, compare_and_swap, Place, outside, trying, sleeping, inside,
  Move, call, take, miss, wake, leave, Threads, moved, pick, Steps, start, later, unlocked,
}

-- The lock is free and nobody is inside, or it is taken by the one thread inside.
abbrev Free : Threads → Type 0
Free s = (s.lock ≡ 0) × ((i : ℕ) → s.place i ≡ inside → ⊥)

abbrev Taken : Threads → Type 0
Taken s = (s.lock ≡ 1) × ((i : ℕ) × (s.place i ≡ inside) × ((j : ℕ) → s.place j ≡ inside → i ≡ j))

Move-apart :
    (lock : ℕ) (place : ℕ → Place) (i : ℕ) {p p' : Place} {lock' : ℕ}
    → Move lock p lock' p'
    → place i ≡ p
    → Free (record { lock = lock; place = place }) ⊎ Taken (record { lock = lock; place = place })
    → Free (record { lock = lock'; place = moved place i p' })
      ⊎ Taken (record { lock = lock'; place = moved place i p' })
unfolding simple_spin_lock simple_spin_unlock compare_and_swap
Move-apart lock place i call e (inl (f, out)) = inl (f, λ j q. ground (arith, out j))
Move-apart lock place i call e (inr (f, (k, h, one))) =
    inr (f, (k, ground arith, λ j q. ground (arith, one j)))
Move-apart lock place i (take t) e (inl (f, out)) =
    inr (ground arith, (i, ground arith, λ j q. ground (arith, out j)))
Move-apart lock place i (take t) e (inr (f, k)) = ground arith
Move-apart lock place i (miss t) e (inl (f, out)) = ground arith
Move-apart lock place i (miss t) e (inr (f, (k, h, one))) =
    inr (ground arith, (k, ground arith, λ j q. ground (arith, one j)))
Move-apart lock place i wake e (inl (f, out)) = inl (f, λ j q. ground (arith, out j))
Move-apart lock place i wake e (inr (f, (k, h, one))) =
    inr (f, (k, ground arith, λ j q. ground (arith, one j)))
Move-apart lock place i leave e (inl (f, out)) = absurd (out i e)
Move-apart lock place i leave e (inr (f, (k, h, one))) =
    inl (ground arith, λ j q. ground (arith, one i, one j))

Steps-apart : {s : Threads} → Steps unlocked s → Free s ⊎ Taken s
Steps-apart start = inl (refl, λ i e. cc)
Steps-apart (later {u} r (pick i m)) = Move-apart u.lock u.place i m refl (Steps-apart r)

-- However the steps of the threads interleave, two are never between simple_spin_lock and
-- simple_spin_unlock at the same time.
pub spin_exclusion :
    (s : Threads) (i j : ℕ) → Steps unlocked s → s.place i ≡ inside → s.place j ≡ inside → i ≡ j
spin_exclusion s i j r e f = pick_case (Steps-apart r)
  where
    pick_case : Free s ⊎ Taken s → i ≡ j
    pick_case (inl (_, out)) = absurd (out i e)
    pick_case (inr (_, (k, h, one))) = sym (one i e) ∙ one j f

-- One step of thread `i`, which is at `p`.
step_of :
    (s : Threads) (i : ℕ) {p p' : Place} {lock : ℕ}
    → s.place i ≡ p
    → Move s.lock p lock p'
    → Steps s (record { lock = lock; place = moved s.place i p' })
step_of s i {p} {p'} {lock} e m =
    later start (pick i (subst (λ q. Move s.lock q lock p') (sym e) m))

Steps-trans : {s u v : Threads} → Steps s u → Steps u v → Steps s v
Steps-trans r start = r
Steps-trans r (later q m) = later (Steps-trans r q) m

moved_self : (place : ℕ → Place) (i : ℕ) (p : Place) → moved place i p i ≡ p
moved_self place i p = rw (==_refl i)

-- A thread at the compare-and-swap of a free lock gets in.
take_free :
    (s : Threads) (i : ℕ)
    → s.lock ≡ 0
    → s.place i ≡ trying
    → (u : Threads) × Steps s u × (u.place i ≡ inside)
unfolding simple_spin_lock compare_and_swap
take_free s i free e =
    let won : (simple_spin_lock s.lock).0 ≡ true = ground arith in
    (_, step_of s i e (take won), moved_self s.place i inside)

-- So does a thread that sleeps, after it wakes.
enter_free :
    (s : Threads) (i : ℕ)
    → s.lock ≡ 0
    → (s.place i ≡ trying) ⊎ (s.place i ≡ sleeping)
    → (u : Threads) × Steps s u × (u.place i ≡ inside)
enter_free s i free (inl e) = take_free s i free e
enter_free s i free (inr e) =
    let awake : Threads = record { lock = s.lock; place = moved s.place i trying } in
    let (u, r, q) = take_free awake i free (moved_self s.place i trying) in
    (u, Steps-trans (step_of s i e wake) r, q)

-- A thread that waits in simple_spin_lock is never locked out: from every state that the threads
-- reach, there are steps after which it is inside.
pub spin_progress :
    (s : Threads) (i : ℕ)
    → Steps unlocked s
    → (s.place i ≡ trying) ⊎ (s.place i ≡ sleeping)
    → (u : Threads) × Steps s u × (u.place i ≡ inside)
unfolding simple_spin_unlock compare_and_swap
spin_progress s i r waits = pick_case (Steps-apart r)
  where
    pick_case : Free s ⊎ Taken s → (u : Threads) × Steps s u × (u.place i ≡ inside)
    pick_case (inl (free, out)) = enter_free s i free waits
    pick_case (inr (taken, (k, h, one))) =
        let left : Threads = record {
          lock = simple_spin_unlock s.lock;
          place = moved s.place k outside;
        } in
        let free : left.lock ≡ 0 = ground arith in
        let still : (left.place i ≡ trying) ⊎ (left.place i ≡ sleeping) = ground arith in
        let (u, q, e) = enter_free left i free still in (u, Steps-trans (step_of s k h leave) q, e)
