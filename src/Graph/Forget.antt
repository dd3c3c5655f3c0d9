-- ===== src/Graph/Forget.antt =====
-- lksmith_destroy's last part: it keeps the graph well-formed and leaves no pointer to the freed lock.
use lksmith.Base.{
  ℕ, ◌≡◌, refl, sym, ◌∙◌, ◌≢◌, ◌⊎◌, inl, inr, true, false, none, some, arith, ◌==◌, In,
  if◌then◌else◌, ℕ_discrete, ==_refl, ==_ne, Bool-cases, done, Option-cases,
}
use lksmith.Lock.{Lock, Heap}
use lksmith.Tree.{TreeLib}
use lksmith.Graph.{Graph, IsWf, lksmith_forget}
use lksmith.Graph.Remove.{Trimmed, Swept, remove_before_all-Swept}

module _ (T : TreeLib) (g : Graph T) (ptr lk : ℕ) (l : Lock) (w : IsWf T g)
    (at : g.heap lk ≡ some l) (own : l.ptr ≡ ptr) where
  abbrev tree : T.Tree
  tree = T.remove ptr g.tree

  find-tree : (p : ℕ) → p ≢ ptr → T.find p tree ≡ T.find p g.tree
  find-tree p ne = T.find-remove ptr p g.tree ∙ (rw (==_ne ptr p (λ e. ne (sym e))))

  -- A node of the smaller tree is a live lock other than `lk`.
  node-live : (x : ℕ) → In x (T.elements tree) → (m : Lock) × (g.heap x ≡ some m) × (x ≢ lk)
  node-live x k =
      let (p, e) = (T.In-elements x tree).0 k in
      pick p (T.find-remove ptr p g.tree) e (Bool-cases (ptr == p))
    where
      pick :
          (p : ℕ)
          → T.find p tree ≡ (if ptr == p then none else T.find p g.tree)
          → T.find p tree ≡ some x
          → ((ptr == p) ≡ true) ⊎ ((ptr == p) ≡ false)
          → (m : Lock) × (g.heap x ≡ some m) × (x ≢ lk)
      pick p f e (inl same) = let z : none ≡ some x = sym (f ∙ (rw same)) ∙ e in cc z
      pick p f e (inr other) =
          let old : T.find p g.tree ≡ some x = sym (f ∙ (rw other)) ∙ e in
          let (m, u, q) = w.find-live p x old in
          (
            m,
            u,
            λ same.
                let v : g.heap lk ≡ some m = rw same at u in
                let mm : m ≡ l = cc (v, at) in
                let pp : ptr ≡ p = sym own ∙ (rw mm at q) in ground arith,
          )

  live-node : (x : ℕ) (m : Lock) → g.heap x ≡ some m → x ≢ lk → In x (T.elements tree)
  live-node x m e ne =
      let other : m.ptr ≢ ptr = λ p.
        let f = w.live-find x m e in
        let k = w.live-find lk l at in let pp : m.ptr ≡ l.ptr = p ∙ sym own in ne (cc (f, k, pp)) in
      (T.In-elements x tree).1 (m.ptr, find-tree m.ptr other ∙ w.live-find x m e)

  abbrev freed : Heap → Heap
  freed h b = if lk == b then none else h b

  freed_ne : (h : Heap) (x : ℕ) → x ≢ lk → freed h x ≡ h x
  freed_ne h x ne = rw (==_ne lk x (λ e. ne (sym e)))

  freed-some : (h : Heap) (x : ℕ) (m : Lock) → freed h x ≡ some m → (x ≢ lk) × (h x ≡ some m)
  freed-some h x m e = elim (ℕ_discrete x lk) [
    | yes p ↦ let z : freed h x ≡ none = rw p (rw (==_refl lk)) in cc (z, e)
    | no n ↦ (n, sym (freed_ne h x n) ∙ e)
  ]

  module _ (h : Heap) (s : Swept lk T (T.elements tree) g.heap h) where
    -- What stays: every other lock, without `lk` in its array.
    stays :
        (x : ℕ) (m : Lock)
        → g.heap x ≡ some m
        → x ≢ lk
        → (m' : Lock) × (freed h x ≡ some m') × Trimmed lk (Unit {0}) m m'
    stays x m e ne =
        let (m', f, t) = s.kept x m e in
        (
          m',
          freed_ne h x ne ∙ f,
          record {
            ptr = t.ptr;
            props = t.props;
            color = t.color;
            holders = t.holders;
            sorted = t.sorted;
            from = t.from;
            keeps = t.keeps;
            gone = λ u. t.gone (live-node x m e ne);
          },
        )

    -- And nothing else.
    was :
        (x : ℕ) (m' : Lock)
        → freed h x ≡ some m'
        → (x ≢ lk) × (m : Lock) × (g.heap x ≡ some m) × Trimmed lk (Unit {0}) m m'
    was x m' e =
        let (ne, f) = freed-some h x m' e in
        let (m, u, t) = pick ne f (Option-cases (g.heap x)) in (ne, m, u, t)
      where
        pick :
            x ≢ lk
            → h x ≡ some m'
            → (g.heap x ≡ none) ⊎ ((m : Lock) × (g.heap x ≡ some m))
            → (m : Lock) × (g.heap x ≡ some m) × Trimmed lk (Unit {0}) m m'
        pick ne f (inl z) = let d = s.dead x z in cc (d, f)
        pick ne f (inr (m, u)) =
            let (n, v, t) = stays x m u ne in let same : n ≡ m' = cc (v, e) in (m, u, rw same at t)

    forgotten-IsWf : IsWf T (record g { tree = tree; heap = freed h })
    forgotten-IsWf = record {
      find-live = λ p x e.
          let (m, f, ne) = node-live x ((T.In-elements x tree).1 (p, e)) in
          let (m', f', t) = stays x m f ne in (m', f', t.ptr ∙ owner p x m e f ne);
      live-find = λ x m' e.
          let (ne, m, f, t) = was x m' e in
          let old = w.live-find x m f in rw t.ptr (find-tree m.ptr (other x m f ne) ∙ old);
      before-live = λ x m' e b k.
          let (ne, m, f, t) = was x m' e in
          let (n, u) = w.before-live x m f b (t.from b k) in
          let (n', u', _) = stays b n u (λ same. t.gone tt (rw same at k)) in (n', u');
      before-IsSorted = λ x m' e. let (ne, m, f, t) = was x m' e in t.sorted;
      color-le = λ x m' e. let (ne, m, f, t) = was x m' e in rw t.color (w.color-le x m f);
    }
      where
        other : (x : ℕ) (m : Lock) → g.heap x ≡ some m → x ≢ lk → m.ptr ≢ ptr
        other x m e ne p =
            let f = w.live-find x m e in
            let k = w.live-find lk l at in
            let pp : m.ptr ≡ l.ptr = p ∙ sym own in ne (cc (f, k, pp))

        owner :
            (p x : ℕ) (m : Lock) → T.find p tree ≡ some x → g.heap x ≡ some m → x ≢ lk → m.ptr ≡ p
        owner p x m e f ne = pick (Bool-cases (ptr == p))
          where
            pick : ((ptr == p) ≡ true) ⊎ ((ptr == p) ≡ false) → m.ptr ≡ p
            pick (inl same) =
                let z : none ≡ some x = sym (T.find-remove ptr p g.tree ∙ (rw same)) ∙ e in cc z
            pick (inr no_same) =
                let old : T.find p g.tree ≡ some x =
                  sym (T.find-remove ptr p g.tree ∙ (rw no_same)) ∙ e in
                let (n, u, q) = w.find-live p x old in cc (u, f, q)

  -- Of a well-formed graph, with the lock `lk` live under the pointer `ptr`: the removal returns and
  -- keeps the graph well-formed; the lock is then unknown and its memory free; every other lock stays
  -- as it was, but that `lk` is gone from its `before` array.
  pub lksmith_forget-IsWf :
      (g' : Graph T) × (lksmith_forget T ptr lk g ≡ done g')
      × IsWf T g'
      × (T.find ptr g'.tree ≡ none)
      × (g'.heap lk ≡ none)
      × ((x : ℕ) (m : Lock)
          → g.heap x ≡ some m
          → x ≢ lk
          → (m' : Lock) × (g'.heap x ≡ some m') × Trimmed lk (Unit {0}) m m')
  unfolding lksmith_forget
  lksmith_forget-IsWf =
      let (h, e, s) =
        remove_before_all-Swept lk T (T.elements tree) g.heap w.before-IsSorted
          (λ x k. let (m, f, ne) = node-live x k in (m, f)) in
      (
        record g { tree = tree; heap = freed h },
        rw e,
        forgotten-IsWf h s,
        T.find-remove ptr ptr g.tree ∙ (rw (==_refl ptr)),
        rw (==_refl lk),
        stays h s,
      )

  -- The removal keeps the colour counter, and adds neither locks nor `before` entries.
  pub lksmith_forget_from :
      (g' : Graph T)
      → lksmith_forget T ptr lk g ≡ done g'
      → (g'.color ≡ g.color)
        × ((x : ℕ) (m' : Lock)
            → g'.heap x ≡ some m'
            → (m : Lock) × (g.heap x ≡ some m) × ((b : ℕ) → In b m'.before → In b m.before))
  unfolding lksmith_forget
  lksmith_forget_from g' run =
      let (h, e, s) =
        remove_before_all-Swept lk T (T.elements tree) g.heap w.before-IsSorted
          (λ x k. let (m, f, ne) = node-live x k in (m, f)) in
      let swept : Graph T = record g { tree = tree; heap = freed h } in
      let ran : lksmith_forget T ptr lk g ≡ done swept = rw e in
      let same : swept ≡ g' = cc (ran, run) in rw (← same) (refl, λ x m' f. older h s x m' f)
    where
      older :
          (h : Heap)
          → Swept lk T (T.elements tree) g.heap h
          → (x : ℕ) (m' : Lock) → freed h x ≡ some m'
          → (m : Lock) × (g.heap x ≡ some m) × ((b : ℕ) → In b m'.before → In b m.before)
      older h s x m' f = elim (Option-cases (g.heap x)) [
        | inl z ↦ let out = s.dead x z in cc (out, (freed-some h x m' f).1)
        | inr (m, z) ↦
            let (m1, k, t) = s.kept x m z in
            let same : m1 ≡ m' = cc (k, (freed-some h x m' f).1) in (m, z, rw (← same) t.from)
      ]
