-- ===== src/Depends/Order.antt =====
-- The order check as a whole: it reports a lock inversion when there is one, and reports no other.
use lksmith.Base.{
  ℕ, suc, ◌+◌, ◌%◌, ◌^◌, ◌<◌, ◌≡◌, refl, ◌∙◌, ◌≢◌, ◌⊎◌, inl, inr, Bool, true, List, [], ◌∷◌, ◌++◌,
  Option, none, some, arith, In, done, In-append,
}
use lksmith.Lock.{Lock}
use lksmith.Tree.{TreeLib}
use lksmith.Report.{Report}
use lksmith.Graph.{Graph, IsWf}
use lksmith.Graph.Walk.{IsTrue}
use lksmith.Search.Paint.{is_painted}
use lksmith.Depends.{depend_all, lksmith_prelock_process_depends}
use lksmith.Depends.Grow.{Grows, Extends, Grows-refl, Grows-trans, Leads-Grows, Leads-Grows_inv}
use lksmith.Depends.Round.{inversions, Inverts, Round, depend-Round}

pub inversions-append :
    (rs ss : List Report) → inversions (rs ++ ss) ≡ inversions rs ++ inversions ss
inversions-append [] ss = refl
inversions-append (r ∷ rs) ss = ground (arith, inversions-append rs ss)

module _ (T : TreeLib) (lk ptr : ℕ) where
  module _ (Added : ℕ → Type 0) where
    Inverts-Grows :
        (g g' : Graph T)
        → IsWf T g
        → Grows T lk Added g g'
        → (h : ℕ) → Inverts T lk ptr g h
        → Inverts T lk ptr g' h
    Inverts-Grows g g' w grow h (ak, e, n, v) =
        (ak, rw grow.tree e, n, Leads-Grows T lk Added ptr g g' w grow ak v)

    Inverts-Grows_inv :
        (g g' : Graph T) (l : Lock)
        → IsWf T g
        → Grows T lk Added g g'
        → g.heap lk ≡ some l
        → l.ptr ≡ ptr
        → (h : ℕ) → Inverts T lk ptr g' h
        → Inverts T lk ptr g h
    Inverts-Grows_inv g g' l w grow at own h (ak, e, n, v) =
        (ak, rw grow.tree at e, n, Leads-Grows_inv T lk Added ptr g g' w grow l at own ak v)

    pub record Checked (g g' : Graph T) (held : List ℕ) (rs : List Report) : Type 0 where
      pub grows : Grows T lk Added g g'
      pub sound : (h : ℕ) → In h (inversions rs) → In h held × Inverts T lk ptr g h
      pub full :
          IsTrue T ptr g
          → (h : ℕ) → In h held
          → Inverts T lk ptr g h
          → (k : ℕ) × In k (inversions rs)

    pub depend_all-Checked :
        (grow : ℕ → Bool) (i : ℕ) (held : List ℕ) (g : Graph T) (l : Lock)
        → IsWf T g
        → g.heap lk ≡ some l
        → l.ptr ≡ ptr
        → ((h ak : ℕ) → In h held → T.find h g.tree ≡ some ak → ak ≢ lk → Added ak)
        → (g' : Graph T) × (rs : List Report) × (depend_all T grow i lk ptr held g ≡ done (g', rs))
          × Checked g g' held rs
    unfolding depend_all
    depend_all-Checked grow i [] g l w at own allowed = (
      g,
      [],
      refl,
      record {
        grows = Grows-refl T lk Added g w;
        sound = λ h m. absurd m;
        full = λ t h m v. absurd m;
      },
    )
    depend_all-Checked grow i (h ∷ held) g l w at own allowed =
        let (g1, rs, e, p, r) =
          depend-Round T lk ptr Added g l w at own (grow i) h
            (λ ak f n. allowed h ak (inl refl) f n) in
        let (l1, at1, x) = p.locks lk l at in
        let (g2, ss, e2, q) =
          depend_all-Checked grow (suc i) held g1 l1 p.wf at1 (x.ptr ∙ own)
            (λ k ak m f n. allowed k ak (inr m) (rw p.tree at f) n) in
        (g2, rs ++ ss, rw (e, e2), both g1 g2 rs ss p r q)
      where
        both :
            (g1 g2 : Graph T) (rs ss : List Report)
            → Grows T lk Added g g1
            → Round T lk ptr g g1 h rs
            → Checked g1 g2 held ss
            → Checked g g2 (h ∷ held) (rs ++ ss)
        both g1 g2 rs ss p r q = record {
          grows = Grows-trans T lk Added g g1 g2 p q.grows;
          sound = λ k m.
              told k (
                (In-append k (inversions rs) (inversions ss)).0
                  (rw (inversions-append rs ss) at m));
          full = λ t k m v. tell k v m (r.full t);
        }
          where
            told :
                (k : ℕ)
                → In k (inversions rs) ⊎ In k (inversions ss)
                → In k (h ∷ held) × Inverts T lk ptr g k
            told k (inl m) = let (same, v) = r.sound k m in (inl same, rw same v)
            told k (inr m) =
                let (n, v) = q.sound k m in (inr n, Inverts-Grows_inv g g1 l w p at own k v)

            found :
                (k : ℕ)
                → In k (inversions rs) ⊎ In k (inversions ss)
                → (k : ℕ) × In k (inversions (rs ++ ss))
            found k m = (
              k,
              rw (inversions-append rs ss) ((In-append k (inversions rs) (inversions ss)).1 m),
            )

            tell :
                (k : ℕ)
                → Inverts T lk ptr g k
                → In k (h ∷ held)
                → In h (inversions rs) ⊎ (¬ Inverts T lk ptr g h) × IsTrue T ptr g1
                → (k : ℕ) × In k (inversions (rs ++ ss))
            tell k v m (inl n) = found h (inl n)
            tell k v (inl same) (inr (out, t)) = absurd (out (rw same at v))
            tell k v (inr m) (inr (out, t)) =
                let (j, n) = q.full t k m (Inverts-Grows g g1 w p k v) in found j (inr n)

  -- The entries that the order check may add to the `before` array of the lock.
  abbrev pub Candidate : Graph T → List ℕ → ℕ → Type 0
  Candidate g held b = (h : ℕ) × In h held × (T.find h g.tree ≡ some b) × (b ≢ lk)

  -- The new colour is on no lock yet.
  pub bump-IsTrue :
      (g : Graph T) (c : ℕ)
      → IsWf T g
      → c ≡ g.color + 1
      → IsWf T (record g { color = c }) × IsTrue T ptr (record g { color = c })
  bump-IsTrue g c w e = (
    record {
      find-live = w.find-live;
      live-find = w.live-find;
      before-live = w.before-live;
      before-IsSorted = w.before-IsSorted;
      color-le = λ a l f. omega (arith, w.color-le a l f);
    },
    λ x p. absurd (white x (g.heap x) refl p),
  )
    where
      white : (x : ℕ) (o : Option Lock) → g.heap x ≡ o → is_painted c o ≡ true → ⊥
      white x none f p = cc
      white x (some l) f p = ground (arith, w.color-le x l f)

  -- The run, seen from the graph with the new colour.
  pub process_depends-Checked :
      (grow : ℕ → Bool) (held : List ℕ) (g : Graph T) (l : Lock)
      → IsWf T g
      → g.heap lk ≡ some l
      → l.ptr ≡ ptr
      → g.color + 1 < 2 ^ 64
      → (c : ℕ) × (c ≡ g.color + 1)
        × (g' : Graph T) × (rs : List Report) × (lksmith_prelock_process_depends T grow held lk ptr
              g
            ≡ done (g', rs))
        × IsWf T (record g { color = c })
        × IsTrue T ptr (record g { color = c })
        × Checked (Candidate g held) (record g { color = c }) g' held rs
  unfolding lksmith_prelock_process_depends
  process_depends-Checked grow held g l w at own small =
      let c = (g.color + 1) % 2 ^ 64 in
      let (wf, fresh) = bump-IsTrue g c w (omega arith) in
      let (g', rs, e, p) =
        depend_all-Checked (Candidate g held) grow 0 held (record g { color = c }) l wf at own
          (λ h ak m f n. (h, m, f, n)) in
      (c, omega arith, g', rs, e, wf, fresh, p)

  -- For a well-formed graph, a live lock `lk` with the pointer `ptr` and a colour counter that does
  -- not wrap, the order check returns and keeps the graph well-formed and its tree unchanged. Every
  -- inversion that it reports is real: a known held lock other than `lk` leads to `ptr` through
  -- `before` entries. If any held lock does, it reports at least one inversion. And apart from
  -- colours it changes nothing but the `before` array of `lk`, which gains known held locks only.
  pub process_depends_lem :
      (grow : ℕ → Bool) (held : List ℕ) (g : Graph T) (l : Lock)
      → IsWf T g
      → g.heap lk ≡ some l
      → l.ptr ≡ ptr
      → g.color + 1 < 2 ^ 64
      → (g' : Graph T) × (rs : List Report) × (lksmith_prelock_process_depends T grow held lk ptr g
          ≡ done (g', rs))
        × IsWf T g'
        × (g'.tree ≡ g.tree)
        × ((h : ℕ) → In h (inversions rs) → In h held × Inverts T lk ptr g h)
        × ((h : ℕ) → In h held → Inverts T lk ptr g h → (k : ℕ) × In k (inversions rs))
        × ((x : ℕ) (m : Lock)
            → g.heap x ≡ some m
            → (m' : Lock) × (g'.heap x ≡ some m')
              × Extends (λ b. (x ≡ lk) × Candidate g held b) m m')
  process_depends_lem grow held g l w at own small =
      let (c, _, g', rs, e, wf, fresh, p) = process_depends-Checked grow held g l w at own small in
      (g', rs, e, p.grows.wf, p.grows.tree, p.sound, p.full fresh, p.grows.locks)
