-- ===== src/Tree/Assoc.antt =====
-- An association list that meets the laws of the tree library, for the concrete runs.
use lksmith.Base.{
  ℕ, ◌≡◌, refl, ◌↔◌, ◌⊎◌, inl, inr, Bool, true, false, List, [], ◌∷◌, Option, none, some, arith,
  ◌==◌, In, if◌then◌else◌, Bool-cases, ap,
}
use lksmith.Tree.{TreeLib}

abbrev pub find : ℕ → List (ℕ × ℕ) → Option ℕ
find k [] = none
find k ((j, a) ∷ t) = if j == k then some a else find k t

abbrev insert : ℕ → ℕ → List (ℕ × ℕ) → Option ℕ × List (ℕ × ℕ)
insert k a t = elim (find k t) [ none ↦ (none, (k, a) ∷ t) | some b ↦ (some b, t) ]

abbrev remove : ℕ → List (ℕ × ℕ) → List (ℕ × ℕ)
remove k [] = []
remove k ((j, a) ∷ t) = let rest = remove k t in if j == k then rest else (j, a) ∷ rest

abbrev seen : ℕ → List ℕ → Bool
seen k [] = false
seen k (j ∷ ks) = if j == k then true else seen k ks

-- The nodes whose keys are not among `ks`; a later pair with a key is hidden by an earlier one.
abbrev nodes : List ℕ → List (ℕ × ℕ) → List ℕ
nodes ks [] = []
nodes ks ((k, a) ∷ t) = elim (seen k ks) [ true ↦ nodes ks t | false ↦ a ∷ nodes (k ∷ ks) t ]

pub insert-find : (k a : ℕ) (t : List (ℕ × ℕ)) → (insert k a t).0 ≡ find k t
insert-find k a t = ground arith

pub find-insert :
    (k a j : ℕ) (t : List (ℕ × ℕ))
    → find k t ≡ none
    → find j (insert k a t).1 ≡ (if k == j then some a else find j t)
find-insert k a j t e = ground arith

pub insert-present : (k a b : ℕ) (t : List (ℕ × ℕ)) → find k t ≡ some b → (insert k a t).1 ≡ t
insert-present k a b t e = ground arith

pub find-remove :
    (k j : ℕ) (t : List (ℕ × ℕ)) → find j (remove k t) ≡ (if k == j then none else find j t)
find-remove k j [] = ground arith
find-remove k j ((i, a) ∷ t) = ground (arith, find-remove k j t)

nodes-find :
    (ks : List ℕ) (a : ℕ) (t : List (ℕ × ℕ))
    → In a (nodes ks t)
    → (k : ℕ) × (find k t ≡ some a) × (seen k ks ≡ false)
nodes-find ks a [] m = absurd m
nodes-find ks a ((k, b) ∷ t) m = elim (Bool-cases (seen k ks)) [
  | inl old ↦
      let (j, e, s) = nodes-find ks a t (ground arith) in (j, ground (arith, seen-eq k j ks), s)
  | inr new ↦ fresh new (ground arith) (λ n. nodes-find (k ∷ ks) a t n)
]
  where
    seen-eq : (k j : ℕ) (ks : List ℕ) → k ≡ j → seen k ks ≡ seen j ks
    seen-eq k j ks e = ap (λ i. seen i ks) e

    fresh :
        seen k ks ≡ false
        → (a ≡ b) ⊎ In a (nodes (k ∷ ks) t)
        → (In a (nodes (k ∷ ks) t) → (j : ℕ) × (find j t ≡ some a) × (seen j (k ∷ ks) ≡ false))
        → (j : ℕ) × (find j ((k, b) ∷ t) ≡ some a) × (seen j ks ≡ false)
    fresh s (inl e) rec = (k, ground arith, s)
    fresh s (inr n) rec = let (j, e, u) = rec n in (j, ground arith, ground arith)

find-nodes :
    (ks : List ℕ) (a k : ℕ) (t : List (ℕ × ℕ))
    → find k t ≡ some a
    → seen k ks ≡ false
    → In a (nodes ks t)
find-nodes ks a k [] e s = ground arith
find-nodes ks a k ((j, b) ∷ t) e s =
    ground
      (arith, find-nodes ks a k t, find-nodes (j ∷ ks) a k t, ap (λ i. seen i ks) {x = j} {y = k})

pub In-elements : (a : ℕ) (t : List (ℕ × ℕ)) → In a (nodes [] t) ↔ ((k : ℕ) × (find k t ≡ some a))
In-elements a t =
    (λ m. let (k, e, s) = nodes-find [] a t m in (k, e), λ (k, e). find-nodes [] a k t e refl)

abbrev pub assoc_lib : TreeLib
assoc_lib = record {
  Tree = List (ℕ × ℕ);
  empty = [];
  find = find;
  insert = insert;
  remove = remove;
  elements = nodes [];
  find-empty = λ k. refl;
  insert-find = insert-find;
  find-insert = find-insert;
  insert-present = insert-present;
  find-remove = find-remove;
  In-elements = In-elements;
}
