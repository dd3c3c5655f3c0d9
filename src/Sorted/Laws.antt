-- ===== src/Sorted/Laws.antt =====
-- A sorted array of addresses is a set: what lk_add_sorted and lk_remove_sorted do to it.
use lksmith.Base.{
  ℕ, suc, ◌+◌, ◌<◌, ◌≡◌, refl, ◌≢◌, ◌↔◌, ◌⊎◌, inl, inr, Bool, true, false, List, [], ◌∷◌, ◌++◌,
  Option, none, some, arith, ◌==◌, ltb, take, drop, In, if◌then◌else◌,
}
use lksmith.Code.{Code, ok, err, enomem}
use lksmith.Held.{delete_at}
use lksmith.Sorted.{
  Place, present, at, find_place, insert_at, lk_add_sorted, find_entry, lk_remove_sorted,
}
use mathlib.Core.Logic.{⊎_elim}

-- Every entry lies above `lo`, and the array rises strictly.
abbrev pub Above : ℕ → List ℕ → Type 0
Above lo [] = Unit {0}
Above lo (x ∷ xs) = (lo < x) × Above x xs

-- Strictly rising: sorted, with no entry twice.
abbrev pub IsSorted : List ℕ → Type 0
IsSorted [] = Unit {0}
IsSorted (x ∷ xs) = Above x xs

-- Recursive forms of the two operations, to which the index loops are equal.
abbrev insert : ℕ → List ℕ → List ℕ
insert lk [] = lk ∷ []
insert lk (a ∷ arr) =
    if a == lk then a ∷ arr else if ltb lk a then lk ∷ a ∷ arr else a ∷ insert lk arr

abbrev remove : ℕ → List ℕ → List ℕ
remove ak [] = []
remove ak (a ∷ arr) = if a == ak then arr else if ltb ak a then a ∷ arr else a ∷ remove ak arr

abbrev placed : Place → ℕ → List ℕ → List ℕ
placed present lk arr = arr
placed (at i) lk arr = take i arr ++ lk ∷ drop i arr

abbrev shift : Place → Place
shift present = present
shift (at i) = at (suc i)

find_place-suc :
    (i : ℕ) (arr : List ℕ) (lk : ℕ) → find_place (suc i) arr lk ≡ shift (find_place i arr lk)
unfolding find_place
find_place-suc i [] lk = refl
find_place-suc i (a ∷ arr) lk =
    let e : i + 1 ≡ suc i = omega arith in ground (arith, find_place-suc (i + 1) arr lk)

placed-shift :
    (p : Place) (lk a : ℕ) (arr : List ℕ)
    → p ≢ present
    → placed (shift p) lk (a ∷ arr) ≡ a ∷ placed p lk arr
placed-shift present lk a arr h = absurd (h refl)
placed-shift (at i) lk a arr h = refl

shift-placed :
    (p : Place) (lk a : ℕ) (arr : List ℕ) → placed (shift p) lk (a ∷ arr) ≡ a ∷ placed p lk arr
shift-placed present lk a arr = refl
shift-placed (at i) lk a arr = refl

placed-insert : (arr : List ℕ) (lk : ℕ) → placed (find_place 0 arr lk) lk arr ≡ insert lk arr
unfolding find_place
placed-insert [] lk = refl
placed-insert (a ∷ arr) lk = ground (
  arith,
  find_place-suc 0 arr lk,
  shift-placed (find_place 0 arr lk) lk a arr,
  placed-insert arr lk,
)

abbrev cut : Option ℕ → List ℕ → List ℕ
cut none arr = arr
cut (some i) arr = delete_at i arr

abbrev shift_index : Option ℕ → Option ℕ
shift_index none = none
shift_index (some i) = some (suc i)

find_entry-suc :
    (i : ℕ) (arr : List ℕ) (ak : ℕ) → find_entry (suc i) arr ak ≡ shift_index (find_entry i arr ak)
unfolding find_entry
find_entry-suc i [] ak = refl
find_entry-suc i (a ∷ arr) ak =
    let e : i + 1 ≡ suc i = omega arith in ground (arith, find_entry-suc (i + 1) arr ak)

shift-cut : (o : Option ℕ) (a : ℕ) (arr : List ℕ) → cut (shift_index o) (a ∷ arr) ≡ a ∷ cut o arr
shift-cut none a arr = refl
shift-cut (some i) a arr = refl

cut-remove : (arr : List ℕ) (ak : ℕ) → cut (find_entry 0 arr ak) arr ≡ remove ak arr
unfolding find_entry
cut-remove [] ak = refl
cut-remove (a ∷ arr) ak =
    ground
      (arith, find_entry-suc 0 arr ak, shift-cut (find_entry 0 arr ak) a arr, cut-remove arr ak)

Above-In : (lo : ℕ) (arr : List ℕ) (q : ℕ) → Above lo arr → In q arr → lo < q
Above-In lo (x ∷ xs) q h (inl e) = omega arith
Above-In lo (x ∷ xs) q h (inr m) = omega (arith, Above-In x xs q h.1 m)
Above-In lo [] q h m = absurd m

Above-insert : (lo lk : ℕ) (arr : List ℕ) → lo < lk → Above lo arr → Above lo (insert lk arr)
Above-insert lo lk [] l h = (l, tt)
Above-insert lo lk (a ∷ arr) l h = ground (arith, Above-insert a lk arr)

IsSorted-insert : (lk : ℕ) (arr : List ℕ) → IsSorted arr → IsSorted (insert lk arr)
IsSorted-insert lk [] h = tt
IsSorted-insert lk (a ∷ arr) h = ground (arith, Above-insert a lk arr)

In-insert : (lk q : ℕ) (arr : List ℕ) → In q (insert lk arr) ↔ (In q arr ⊎ (q ≡ lk))
In-insert lk q [] = ground arith
In-insert lk q (a ∷ arr) = ground (arith, In-insert lk q arr)

Above-lower : (lo a : ℕ) (arr : List ℕ) → lo < a → Above a arr → Above lo arr
Above-lower lo a [] l h = tt
Above-lower lo a (x ∷ xs) l h = (omega arith, h.1)

Above-remove : (lo ak : ℕ) (arr : List ℕ) → Above lo arr → Above lo (remove ak arr)
Above-remove lo ak [] h = tt
Above-remove lo ak (a ∷ arr) h = ground (arith, Above-remove a ak arr, Above-lower lo a arr)

Above-IsSorted : (lo : ℕ) (arr : List ℕ) → Above lo arr → IsSorted arr
Above-IsSorted lo [] h = tt
Above-IsSorted lo (x ∷ xs) h = h.1

IsSorted-remove : (ak : ℕ) (arr : List ℕ) → IsSorted arr → IsSorted (remove ak arr)
IsSorted-remove ak [] h = tt
IsSorted-remove ak (a ∷ arr) h = ground (arith, Above-remove a ak arr, Above-IsSorted a arr)

In-remove : (ak q : ℕ) (arr : List ℕ) → IsSorted arr → In q (remove ak arr) ↔ (In q arr × (q ≢ ak))
In-remove ak q [] h = ground arith
In-remove ak q (a ∷ arr) h =
    ground
      (arith, In-remove ak q arr (Above-IsSorted a arr h), Above-In a arr q h, Above-In a arr ak h)

lk_remove_sorted-remove : (arr : List ℕ) (ak : ℕ) → lk_remove_sorted arr ak ≡ remove ak arr
unfolding lk_remove_sorted
lk_remove_sorted-remove arr ak = ground (arith, cut-remove arr ak)

-- Whether the loop of lk_add_sorted finds the lock present.
find_place-present :
    (i : ℕ) (arr : List ℕ) (lk : ℕ) → IsSorted arr → (find_place i arr lk ≡ present) ↔ In lk arr
unfolding find_place
find_place-present i [] lk h = ground arith
find_place-present i (a ∷ arr) lk h =
    ground (arith, find_place-present (i + 1) arr lk (Above-IsSorted a arr h), Above-In a arr lk h)

Place-cases : (p : Place) → (p ≡ present) ⊎ ((i : ℕ) × (p ≡ at i))
Place-cases present = inl refl
Place-cases (at i) = inr (i, refl)

-- On a sorted array lk_add_sorted keeps the array sorted and without repetition, and adds exactly
-- the given lock. It fails, with ENOMEM and the array unchanged, exactly when there is no memory
-- and the lock is not there yet; without failure it returns 0.
pub lk_add_sorted_set :
    (grown : Bool) (arr : List ℕ) (lk : ℕ)
    → IsSorted arr
    → let (code, arr') = lk_add_sorted grown arr lk in
      IsSorted arr'
      × ((code ≡ ok) × ((q : ℕ) → In q arr' ↔ (In q arr ⊎ (q ≡ lk)))
          ⊎ (code ≡ err enomem) × (grown ≡ false) × (¬ In lk arr) × (arr' ≡ arr))
unfolding lk_add_sorted insert_at
lk_add_sorted_set grown arr lk h = elim (Place-cases (find_place 0 arr lk)) [
  | inl e ↦
      let here = (find_place-present 0 arr lk h).0 e in
      rw (e, lk_add_sorted) (h, inl (refl, λ q. (inl, λ m. ⊎_elim (λ n. n) (λ p. rw p here) m)))
  | inr (i, e) ↦
      let out : ¬ In lk arr = λ m. cc (e, (find_place-present 0 arr lk h).1 m) in
      let same : insert_at i lk arr ≡ insert lk arr = rw e at (placed-insert arr lk) in
      rw (e, lk_add_sorted) (gap grown i out same)
]
  where
    gap :
        (g : Bool) (i : ℕ)
        → ¬ In lk arr
        → insert_at i lk arr ≡ insert lk arr
        → let (code, arr') : Code × List ℕ =
            if g then (ok, insert_at i lk arr) else (err enomem, arr) in
          IsSorted arr'
          × ((code ≡ ok) × ((q : ℕ) → In q arr' ↔ (In q arr ⊎ (q ≡ lk)))
              ⊎ (code ≡ err enomem) × (g ≡ false) × (¬ In lk arr) × (arr' ≡ arr))
    gap true i out same = rw same (IsSorted-insert lk arr h, inl (refl, λ q. In-insert lk q arr))
    gap false i out same = (h, inr (refl, refl, out, refl))

-- On a sorted array lk_remove_sorted keeps the array sorted, and takes out the given lock and no other.
pub lk_remove_sorted_set :
    (arr : List ℕ) (ak : ℕ)
    → IsSorted arr
    → IsSorted (lk_remove_sorted arr ak)
      × ((q : ℕ) → In q (lk_remove_sorted arr ak) ↔ (In q arr × (q ≢ ak)))
lk_remove_sorted_set arr ak h =
    rw (lk_remove_sorted-remove arr ak) (IsSorted-remove ak arr h, λ q. In-remove ak q arr h)

-- With or without memory, lk_add_sorted loses no entry and makes up none.
pub lk_add_sorted-keeps :
    (grown : Bool) (arr : List ℕ) (lk q : ℕ)
    → IsSorted arr
    → (In q arr → In q (lk_add_sorted grown arr lk).1)
      × (In q (lk_add_sorted grown arr lk).1 → In q arr ⊎ (q ≡ lk))
lk_add_sorted-keeps grown arr lk q h = elim (lk_add_sorted_set grown arr lk h).1 [
  | inl (_, same) ↦ (λ m. (same q).1 (inl m), (same q).0)
  | inr (_, _, _, same) ↦ (λ m. rw same m, λ m. inl (rw same at m))
]
