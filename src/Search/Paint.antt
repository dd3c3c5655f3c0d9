-- ===== src/Search/Paint.antt =====
-- The colours of a heap, and the graph that the search never changes.
use lksmith.Base.{
  ℕ, ◌+◌, ◌<◌, ◌≤◌, ◌≡◌, ◌≢◌, Bool, true, false, List, [], ◌∷◌, Option, none, some, arith, ◌==◌, In,
  if◌then◌else◌, inl, inr,
}
use lksmith.Lock.{Lock, Heap, store}

-- A lock without its colour.
abbrev pub erase : Option Lock → Option Lock
erase none = none
erase (some l) = some (record l { color = 0 })

-- Whether a structure has the colour `c`.
abbrev pub is_painted : ℕ → Option Lock → Bool
is_painted c none = false
is_painted c (some l) = l.color == c

abbrev pub Painted : ℕ → Heap → ℕ → Type 0
Painted c h x = is_painted c (h x) ≡ true

-- How many of the listed locks do not have the colour `c`.
abbrev pub white : ℕ → Heap → List ℕ → ℕ
white c h [] = 0
white c h (x ∷ xs) = (if is_painted c (h x) then 0 else 1) + white c h xs

pub white_mono :
    (c : ℕ) (h h' : Heap) (xs : List ℕ)
    → ((x : ℕ) → Painted c h x → Painted c h' x)
    → white c h' xs ≤ white c h xs
white_mono c h h' [] kept = omega arith
white_mono c h h' (x ∷ xs) kept = ground (arith, kept x, white_mono c h h' xs kept)

pub Painted-store :
    (c : ℕ) (h : Heap) (a : ℕ) (l : Lock) (x : ℕ)
    → Painted c h x
    → Painted c (store a (record l { color = c }) h) x
Painted-store c h a l x p = ground arith

pub Painted-store_self :
    (c : ℕ) (h : Heap) (a : ℕ) (l : Lock) → Painted c (store a (record l { color = c }) h) a
Painted-store_self c h a l = ground arith

pub Painted-store_inv :
    (c : ℕ) (h : Heap) (a : ℕ) (l : Lock) (x : ℕ)
    → a ≢ x
    → Painted c (store a (record l { color = c }) h) x
    → Painted c h x
Painted-store_inv c h a l x ne p = ground arith

-- Painting a white lock of the list leaves fewer white.
pub white-store :
    (c : ℕ) (h : Heap) (a : ℕ) (l : Lock) (xs : List ℕ)
    → In a xs
    → is_painted c (h a) ≡ false
    → white c (store a (record l { color = c }) h) xs < white c h xs
white-store c h a l [] m w = absurd m
white-store c h a l (x ∷ xs) (inl e) w =
    ground (arith, white_mono c h (store a (record l { color = c }) h) xs (Painted-store c h a l))
white-store c h a l (x ∷ xs) (inr m) w = ground (arith, white-store c h a l xs m w)

-- Painting changes nothing but a colour.
pub erase-store :
    (c : ℕ) (h : Heap) (a : ℕ) (l : Lock) (x : ℕ)
    → h a ≡ some l
    → erase (store a (record l { color = c }) h x) ≡ erase (h x)
erase-store c h a l x e = ground arith
