-- ===== src/Search/Post.antt =====
-- What a search promises, relative to the graph `G` of the locks without their colours.
use lksmith.Base.{
  ℕ, ◌≡◌, refl, sym, ap, ◌∙◌, ◌≢◌, ◌⊎◌, inl, inr, Bool, true, false, List, [], ◌∷◌, some, arith, In,
  ℕ_discrete,
}
use lksmith.Lock.{Lock, Heap, store}
use lksmith.Search.Paint.{erase, Painted, Painted-store, Painted-store_self, Painted-store_inv}

-- Some chain of `before` entries leads from `x` to the lock whose pointer is `start`.
pub data Leads (G : Heap) (start : ℕ) : ℕ → Type 0 where
  here : {x : ℕ} (l : Lock) → G x ≡ some l → l.ptr ≡ start → Leads G start x
  step :
      {x : ℕ} (l : Lock) (y : ℕ) → G x ≡ some l → In y l.before → Leads G start y → Leads G start x

module _ (c start : ℕ) (G : Heap) where
  -- `x` is not the lock sought, and what it leads to in one step is painted.
  abbrev pub Safe : Heap → ℕ → Type 0
  Safe h x = (l : Lock) → G x ≡ some l → (l.ptr ≢ start) × ((y : ℕ) → In y l.before → Painted c h y)

  -- The colours tell the truth: nothing painted leads to the lock sought.
  abbrev pub IsClean : Heap → Type 0
  IsClean h = (x : ℕ) → Painted c h x → Safe h x

  pub record Post (h h' : Heap) (found : Bool) (todo : List ℕ) : Type 0 where
    pub shape : (x : ℕ) → erase (h' x) ≡ G x
    pub kept : (x : ℕ) → Painted c h x → Painted c h' x
    pub colors : (x : ℕ) → (h' x ≡ h x) ⊎ Painted c h' x
    pub sound : found ≡ true → (y : ℕ) × In y todo × Leads G start y
    pub marked : found ≡ false → (y : ℕ) → In y todo → Painted c h' y
    pub fresh : found ≡ false → (x : ℕ) → Painted c h' x → Painted c h x ⊎ Safe h' x

  pub Safe-kept :
      (h h' : Heap) (x : ℕ) → ((y : ℕ) → Painted c h y → Painted c h' y) → Safe h x → Safe h' x
  Safe-kept h h' x kept s l e = let (ne, all) = s l e in (ne, λ y m. kept y (all y m))

  -- The search of no entries.
  pub Post-nil : (h : Heap) → ((x : ℕ) → erase (h x) ≡ G x) → Post h h false []
  Post-nil h e = record {
    shape = e;
    kept = λ x p. p;
    colors = λ x. inl refl;
    sound = λ f. cc;
    marked = λ f y m. absurd m;
    fresh = λ f x p. inl p;
  }

  -- A hit at the first entry ends the loop.
  pub Post-hit :
      (h h1 : Heap) (y : ℕ) (ys : List ℕ) → Post h h1 true (y ∷ []) → Post h h1 true (y ∷ ys)
  Post-hit h h1 y ys p = record {
    shape = p.shape;
    kept = p.kept;
    colors = p.colors;
    sound = λ f. let (z, m, w) = p.sound refl in (z, inl (only z m), w);
    marked = λ f. cc;
    fresh = λ f. cc;
  }
    where
      only : (z : ℕ) → In z (y ∷ []) → z ≡ y
      only z (inl e) = e
      only z (inr m) = absurd m

  -- After a miss the loop goes on, with what the first entry painted.
  pub Post-miss :
      (h h1 h2 : Heap) (found : Bool) (y : ℕ) (ys : List ℕ)
      → Post h h1 false (y ∷ [])
      → Post h1 h2 found ys
      → Post h h2 found (y ∷ ys)
  Post-miss h h1 h2 found y ys p q = record {
    shape = q.shape;
    kept = λ x k. q.kept x (p.kept x k);
    colors = λ x. changed x (p.colors x) (q.colors x);
    sound = λ f. let (z, m, w) = q.sound f in (z, inr m, w);
    marked = λ f z m. marks f z m;
    fresh = λ f x k. old x (q.fresh f x k);
  }
    where
      changed :
          (x : ℕ)
          → (h1 x ≡ h x) ⊎ Painted c h1 x
          → (h2 x ≡ h1 x) ⊎ Painted c h2 x
          → (h2 x ≡ h x) ⊎ Painted c h2 x
      changed x u (inr k) = inr k
      changed x (inl e) (inl f) = inl (f ∙ e)
      changed x (inr k) (inl f) = inr (q.kept x k)

      marks : found ≡ false → (z : ℕ) → In z (y ∷ ys) → Painted c h2 z
      marks f z (inl e) = q.kept z (p.marked refl z (inl e))
      marks f z (inr m) = q.marked f z m

      old : (x : ℕ) → Painted c h1 x ⊎ Safe h2 x → Painted c h x ⊎ Safe h2 x
      old x (inr s) = inr s
      old x (inl k) = older (p.fresh refl x k)
        where
          older : Painted c h x ⊎ Safe h1 x → Painted c h x ⊎ Safe h2 x
          older (inl k) = inl k
          older (inr s) = inr (Safe-kept h1 h2 x q.kept s)

  module _ (h : Heap) (a : ℕ) (l : Lock) (at : h a ≡ some l)
      (same : (x : ℕ) → erase (h x) ≡ G x) where
    G-at : G a ≡ some (record l { color = 0 })
    G-at = sym (same a) ∙ ap erase at

    -- The lock sought is a hit.
    pub Post-start : l.ptr ≡ start → Post h h true (a ∷ [])
    Post-start e = record {
      shape = same;
      kept = λ x p. p;
      colors = λ x. inl refl;
      sound = λ f. (a, inl refl, here (record l { color = 0 }) G-at e);
      marked = λ f. cc;
      fresh = λ f. cc;
    }

    -- A painted lock is a miss.
    pub Post-painted : l.color ≡ c → Post h h false (a ∷ [])
    Post-painted e = record {
      shape = same;
      kept = λ x p. p;
      colors = λ x. inl refl;
      sound = λ f. cc;
      marked = λ f y m. at_y y m;
      fresh = λ f x p. inl p;
    }
      where
        at_y : (y : ℕ) → In y (a ∷ []) → Painted c h y
        at_y y (inl e') = ground arith
        at_y y (inr m) = absurd m

    -- Any other lock is painted, and the answer is that of its entries.
    pub Post-node :
        (h' : Heap) (found : Bool)
        → l.ptr ≢ start
        → Post (store a (record l { color = c }) h) h' found l.before
        → Post h h' found (a ∷ [])
    Post-node h' found ne p = record {
      shape = p.shape;
      kept = λ x k. p.kept x (Painted-store c h a l x k);
      colors = λ x. changed x (p.colors x);
      sound =
          λ f. let (y, m, w) = p.sound f in (a, inl refl, step (record l { color = 0 }) y G-at m w);
      marked = λ f y m. at_y y m;
      fresh = λ f x k. old f x (p.fresh f x k);
    }
      where
        changed :
            (x : ℕ)
            → (h' x ≡ store a (record l { color = c }) h x) ⊎ Painted c h' x
            → (h' x ≡ h x) ⊎ Painted c h' x
        changed x (inr k) = inr k
        changed x (inl e) = elim (ℕ_discrete x a) [
          | yes f ↦ inr (rw f (p.kept a (Painted-store_self c h a l)))
          | no n ↦ inl (ground arith)
        ]

        at_y : (y : ℕ) → In y (a ∷ []) → Painted c h' y
        at_y y (inl e) = rw e (p.kept a (Painted-store_self c h a l))
        at_y y (inr m) = absurd m

        self : found ≡ false → Safe h' a
        self f m e =
            let same_lock : m ≡ record l { color = 0 } = cc (e, G-at) in
            rw same_lock (ne, p.marked f)

        old :
            found ≡ false
            → (x : ℕ) → Painted c (store a (record l { color = c }) h) x ⊎ Safe h' x
            → Painted c h x ⊎ Safe h' x
        old f x (inr s) = inr s
        old f x (inl k) = elim (ℕ_discrete x a) [
          | yes e ↦ inr (rw e (self f))
          | no n ↦ inl (Painted-store_inv c h a l x (λ e. n (sym e)) k)
        ]
