-- ===== src/Search/Total.antt =====
-- The search always returns, without reading through a dangling pointer, and keeps its promise.
use lksmith.Base.{
  ℕ, zero, suc, ◌<◌, ◌≡◌, refl, sym, ap, ◌∙◌, ◌≢◌, ◌⊎◌, inl, inr, Bool, true, false, List, [], ◌∷◌,
  Option, none, some, arith, ◌==◌, In, if◌then◌else◌, Outcome, done, Bool-cases,
}
use lksmith.Lock.{Lock, Heap, store}
use lksmith.Search.{search_all, lksmith_search}
use lksmith.Search.Paint.{erase, Painted, white, white_mono, white-store, erase-store}
use lksmith.Search.Post.{
  Leads, here, step, Safe, IsClean, Post, Safe-kept, Post-nil, Post-hit, Post-miss, Post-start,
  Post-painted, Post-node,
}

-- Every entry of a `before` array is a live lock.
abbrev pub IsClosed : Heap → Type 0
IsClosed G =
    (x : ℕ) (l : Lock) → G x ≡ some l → (y : ℕ) → In y l.before → (m : Lock) × (G y ≡ some m)

module _ (c start : ℕ) (G : Heap) (closed : IsClosed G) (all : List ℕ)
    (cover : (x : ℕ) (l : Lock) → G x ≡ some l → In x all) where
  abbrev Ends : Heap → List ℕ → Outcome (Bool × Heap) → Type 0
  Ends h todo o =
      (found : Bool) × (h' : Heap) × (o ≡ done (found, h')) × Post c start G h h' found todo

  search_all-Ends :
      (visit : ℕ → Heap → Outcome (Bool × Heap)) (n : ℕ)
      → ((y : ℕ) (h : Heap)
          → white c h all < n
          → ((x : ℕ) → erase (h x) ≡ G x)
          → (m : Lock) × (G y ≡ some m)
          → Ends h (y ∷ []) (visit y h))
      → (ys : List ℕ) (h : Heap) → white c h all < n
      → ((x : ℕ) → erase (h x) ≡ G x)
      → ((y : ℕ) → In y ys → (m : Lock) × (G y ≡ some m))
      → Ends h ys (search_all visit ys h)
  unfolding search_all
  search_all-Ends visit n one [] h w s live = (false, h, refl, Post-nil c start G h s)
  search_all-Ends visit n one (y ∷ ys) h w s live =
      go (one y h w s (live y (inl refl)))
        (λ h1 w1 s1. search_all-Ends visit n one ys h1 w1 s1 (λ z m. live z (inr m)))
    where
      go :
          Ends h (y ∷ []) (visit y h)
          → ((h1 : Heap)
              → white c h1 all < n
              → ((x : ℕ) → erase (h1 x) ≡ G x)
              → Ends h1 ys (search_all visit ys h1))
          → Ends h (y ∷ ys) (search_all visit (y ∷ ys) h)
      go (true, h1, e, p) next = (true, h1, rw e, Post-hit c start G h h1 y ys p)
      go (false, h1, e, p) next =
          let less = white_mono c h h1 all p.kept in
          let (found, h2, e2, q) = next h1 (omega arith) p.shape in
          (found, h2, rw e e2, Post-miss c start G h h1 h2 found y ys p q)

  erase-some : (o : Option Lock) (m : Lock) → erase o ≡ some m → (l : Lock) × (o ≡ some l)
  erase-some none m e = cc
  erase-some (some l) m e = (l, refl)

  -- With more fuel than there are white locks, the search of a live lock returns.
  search-Ends :
      (fuel : ℕ) (a : ℕ) (h : Heap)
      → white c h all < fuel
      → ((x : ℕ) → erase (h x) ≡ G x)
      → (m : Lock) × (G a ≡ some m)
      → Ends h (a ∷ []) (lksmith_search fuel c start a h)
  unfolding lksmith_search
  search-Ends zero a h w same live = absurd (omega arith)
  search-Ends (suc fuel) a h w same (m, live) =
      let (l, at) = erase-some (h a) m (same a ∙ live) in
      rw (at, lksmith_search)
        (elim (Bool-cases (l.ptr == start)) [
          | inl hit ↦ rw hit (true, h, refl, Post-start c start G h a l at same (ground arith))
          | inr ne ↦ rw ne (other l at (ground arith) (λ y h w s v. search-Ends fuel y h w s v))
        ])
    where
      other :
          (l : Lock)
          → h a ≡ some l
          → l.ptr ≢ start
          → ((y : ℕ) (h : Heap)
              → white c h all < fuel
              → ((x : ℕ) → erase (h x) ≡ G x)
              → (m : Lock) × (G y ≡ some m)
              → Ends h (y ∷ []) (lksmith_search fuel c start y h))
          → Ends h (a ∷ []) (
              if l.color == c
              then done (false, h)
              else search_all
                  (lksmith_search fuel c start)
                  l.before
                  (store a (record l { color = c }) h))
      other l at ne visits = elim (Bool-cases (l.color == c)) [
        | inl old ↦ rw old (false, h, refl, Post-painted c start G h a l at same (ground arith))
        | inr new ↦
            let G-at : G a ≡ some (record l { color = 0 }) = sym (same a) ∙ ap erase at in
            let fewer = white-store c h a l all (cover a _ G-at) (rw at new) in
            let (found, h', e, p) =
              search_all-Ends (lksmith_search fuel c start) fuel visits l.before
                (store a (record l { color = c }) h) (omega arith)
                (λ x. erase-store c h a l x at ∙ same x)
                (λ y k. closed a (record l { color = 0 }) G-at y k) in
            rw new (found, h', e, Post-node c start G h a l at same h' found ne p)
      ]

  -- Nothing painted leads to the lock sought.
  not-Leads : (h : Heap) (x : ℕ) → IsClean c start G h → Painted c h x → ¬ Leads G start x
  not-Leads h x clean p (here l e s) = (clean x p l e).0 s
  not-Leads h x clean p (step l y e m w) = not-Leads h y clean ((clean x p l e).1 y m) w

  -- The search returns and changes colours only; a hit is true; and of a heap whose colours tell the
  -- truth a miss is true as well and leaves such a heap.
  pub search-decides :
      (fuel a : ℕ) (h : Heap)
      → white c h all < fuel
      → ((x : ℕ) → erase (h x) ≡ G x)
      → (m : Lock) × (G a ≡ some m)
      → (found : Bool) × (h' : Heap) × (lksmith_search fuel c start a h ≡ done (found, h'))
        × ((x : ℕ) → erase (h' x) ≡ G x)
        × ((x : ℕ) → (h' x ≡ h x) ⊎ Painted c h' x)
        × (found ≡ true → Leads G start a)
        × (IsClean c start G h → found ≡ false → (¬ Leads G start a) × IsClean c start G h')
  search-decides fuel a h w same live =
      let (found, h', e, p) = search-Ends fuel a h w same live in
      (
        found,
        h',
        e,
        p.shape,
        p.colors,
        hit found h' p,
        λ clean f.
            let cl = tidy found h' p clean f in (not-Leads h' a cl (p.marked f a (inl refl)), cl),
      )
    where
      hit :
          (found : Bool) (h' : Heap)
          → Post c start G h h' found (a ∷ [])
          → found ≡ true
          → Leads G start a
      hit found h' p f = only (p.sound f)
        where
          only : (y : ℕ) × In y (a ∷ []) × Leads G start y → Leads G start a
          only (y, inl e, l) = rw (← e) l
          only (y, inr m, l) = absurd m

      tidy :
          (found : Bool) (h' : Heap)
          → Post c start G h h' found (a ∷ [])
          → IsClean c start G h
          → found ≡ false
          → IsClean c start G h'
      tidy found h' p clean f x k = pick (p.fresh f x k)
        where
          pick : Painted c h x ⊎ Safe c start G h' x → Safe c start G h' x
          pick (inl old) = Safe-kept c start G h h' x p.kept (clean x old)
          pick (inr s) = s
