-- ===== src/Held/Laws.antt =====
-- What the list of held locks is as a multiset, and that it is a stack for each lock.
use lksmith.Base.{
  ℕ, zero, suc, ◌+◌, ◌<◌, ◌≡◌, refl, ap, ◌≢◌, ◌↔◌, ◌⊎◌, inl, inr, true, false, List, [], ◌∷◌, ◌++◌,
  none, some, arith, ◌==◌, length, get_elem?, times, In, Option-cases, if◌then◌else◌, length-append,
  get_elem?-append_last, ==_refl, ==_ne, In-index, get_elem?-In, sym, ◌∙◌, dec_lt, append-nil, ◌&&◌,
  Bool-cases,
}
use lksmith.Code.{ok, err, enoent}
use lksmith.Held.{
  tls_append_held, holds_at, find_down, delete_at, tls_remove_held, tls_contains_lid,
}

find_down-hit :
    (n : ℕ) (held : List ℕ) (ptr i : ℕ)
    → find_down n held ptr ≡ some i
    → get_elem? held i ≡ some ptr
unfolding find_down
find_down-hit zero held ptr i h = ground arith
find_down-hit (suc n) held ptr i h = ground (arith, find_down-hit n held ptr i)

find_down-miss :
    (n : ℕ) (held : List ℕ) (ptr i : ℕ)
    → find_down n held ptr ≡ none
    → i < n
    → get_elem? held i ≢ some ptr
unfolding find_down
find_down-miss zero held ptr i h l = absurd (omega arith)
find_down-miss (suc n) held ptr i h l = elim (ℕ-split i n) [
  | inl e ↦ ground arith
  | inr ne ↦ ground (arith, find_down-miss n held ptr i)
]
  where
    ℕ-split : (i n : ℕ) → (i ≡ n) ⊎ (i ≢ n)
    ℕ-split i n = grind arith

times-delete_at :
    (held : List ℕ) (i p q : ℕ)
    → get_elem? held i ≡ some p
    → times held q ≡ (if p == q then 1 else 0) + times (delete_at i held) q
times-delete_at [] i p q h = ground arith
times-delete_at (x ∷ held) zero p q h = ground arith
times-delete_at (x ∷ held) (suc i) p q h = omega (arith, times-delete_at held i p q h)

contains_iff : (held : List ℕ) (ptr : ℕ) → (tls_contains_lid held ptr ≡ true) ↔ In ptr held
unfolding tls_contains_lid
contains_iff [] ptr = ground arith
contains_iff (p ∷ held) ptr = ground (arith, contains_iff held ptr)

find_down-last :
    (n : ℕ) (held : List ℕ) (ptr i : ℕ)
    → i < n
    → holds_at held i ptr ≡ true
    → ((j : ℕ) → i < j → holds_at held j ptr ≡ false)
    → find_down n held ptr ≡ some i
unfolding find_down
find_down-last zero held ptr i l here above = absurd (omega arith)
find_down-last (suc n) held ptr i l here above = elim (dec_lt i n) [
  | yes below ↦ ground (arith, above n below, find_down-last n held ptr i below here above)
  | no top ↦ let e : i ≡ n = omega arith in ground arith
]

holds_at-false : (ys : List ℕ) (j ptr : ℕ) → ¬ In ptr ys → holds_at ys j ptr ≡ false
holds_at-false [] j ptr out = refl
holds_at-false (y ∷ ys) zero ptr out = ==_ne y ptr (λ e. out (inl (sym e)))
holds_at-false (y ∷ ys) (suc j) ptr out = holds_at-false ys j ptr (λ m. out (inr m))

holds_at-above :
    (xs ys : List ℕ) (ptr : ℕ)
    → ¬ In ptr ys
    → (j : ℕ) → length xs < j
    → holds_at (xs ++ ptr ∷ ys) j ptr ≡ false
holds_at-above [] ys ptr out zero l = absurd (omega arith)
holds_at-above [] ys ptr out (suc j) l = holds_at-false ys j ptr out
holds_at-above (x ∷ xs) ys ptr out zero l = absurd (omega arith)
holds_at-above (x ∷ xs) ys ptr out (suc j) l = holds_at-above xs ys ptr out j (omega arith)

holds_at-here : (xs ys : List ℕ) (ptr : ℕ) → holds_at (xs ++ ptr ∷ ys) (length xs) ptr ≡ true
holds_at-here [] ys ptr = ==_refl ptr
holds_at-here (x ∷ xs) ys ptr = holds_at-here xs ys ptr

delete_at-middle : (xs ys : List ℕ) (x : ℕ) → delete_at (length xs) (xs ++ x ∷ ys) ≡ xs ++ ys
delete_at-middle [] ys x = refl
delete_at-middle (z ∷ xs) ys x = ap (◌∷◌ z) (delete_at-middle xs ys x)

-- Removing a lock takes out its latest entry and keeps all others in their order: of
-- `xs ++ ptr ∷ ys`, where `ptr` is not in `ys`, it returns 0 and leaves `xs ++ ys`.
tls_remove_held_last :
    (xs ys : List ℕ) (ptr : ℕ) → ¬ In ptr ys → tls_remove_held (xs ++ ptr ∷ ys) ptr ≡ (ok, xs ++ ys)
unfolding tls_remove_held
tls_remove_held_last xs ys ptr out =
    let at : find_down (length (xs ++ ptr ∷ ys)) (xs ++ ptr ∷ ys) ptr ≡ some (length xs) =
      find_down-last _ _ ptr (length xs) (omega (arith, length-append xs (ptr ∷ ys)))
        (holds_at-here xs ys ptr) (holds_at-above xs ys ptr out) in
    rw (at, tls_remove_held) (ap (λ zs. (ok, zs)) (delete_at-middle xs ys ptr))

-- Removing a lock returns 0 exactly when tls_contains_lid finds it and ENOENT otherwise; it takes
-- one entry of that lock in the first case, none in the second, and never one of another lock.
pub times-tls_remove_held :
    (held : List ℕ) (ptr q : ℕ)
    → ((tls_remove_held held ptr).0 ≡ (if tls_contains_lid held ptr then ok else err enoent))
      × (times held q
          ≡ (if tls_contains_lid held ptr && (ptr == q) then 1 else 0)
            + times (tls_remove_held held ptr).1 q)
unfolding tls_remove_held
times-tls_remove_held held ptr q = elim (Option-cases (find_down (length held) held ptr)) [
  | inl e ↦
      let out : tls_contains_lid held ptr ≡ false = absent e in
      rw (e, out, tls_remove_held) (refl, omega arith)
  | inr (i, e) ↦
      let hit = find_down-hit (length held) held ptr i e in
      let here : tls_contains_lid held ptr ≡ true =
        (contains_iff held ptr).1 (get_elem?-In held i ptr hit) in
      rw (e, here, tls_remove_held) (refl, times-delete_at held i ptr q hit)
]
  where
    absent : find_down (length held) held ptr ≡ none → tls_contains_lid held ptr ≡ false
    absent e = elim (Bool-cases (tls_contains_lid held ptr)) [
      | inl t ↦
          let (i, l, at) = In-index held ptr ((contains_iff held ptr).0 t) in
          absurd (find_down-miss (length held) held ptr i e l at)
      | inr f ↦ f
    ]

-- What tls_append_held added is what tls_remove_held takes away: for a thread that has memory the
-- append returns 0, the lock is then contained, and removing it returns 0 and restores the list.
pub tls_remove_held-append :
    (held : List ℕ) (ptr : ℕ)
    → let (code, held') = tls_append_held true held ptr in
      (code ≡ ok) × (tls_contains_lid held' ptr ≡ true) × (tls_remove_held held' ptr ≡ (ok, held))
unfolding tls_append_held
tls_remove_held-append held ptr = (
  refl,
  (contains_iff (held ++ ptr ∷ []) ptr).1
      (get_elem?-In (held ++ ptr ∷ []) (length held) ptr (get_elem?-append_last held ptr)),
  tls_remove_held_last held [] ptr (λ m. m) ∙ ap (λ zs. (ok, zs)) (append-nil held),
)
