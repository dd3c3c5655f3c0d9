-- ===== src/Graph/Remove.antt =====
-- lksmith_destroy's removal of a lock: no `before` array names it any more.
use lksmith.Base.{
  ℕ, ◌≡◌, refl, sym, ◌∙◌, ◌≢◌, ◌⊎◌, inl, inr, List, [], ◌∷◌, none, some, In, ℕ_discrete, done,
  Option-cases,
}
use lksmith.Lock.{Lock, Heap, store}
use lksmith.Sorted.{lk_remove_sorted}
use lksmith.Sorted.Laws.{IsSorted, lk_remove_sorted_set}
use lksmith.Tree.{TreeLib}
use lksmith.Graph.{lk_remove_before, remove_before_all}
use lksmith.Graph.Update.{store_self, store_ne}

-- `m'` is `m`, but may have lost `lk` from its `before` array; if `sure`, it has.
pub record Trimmed (lk : ℕ) (sure : Type 0) (m m' : Lock) : Type 0 where
  pub ptr : m'.ptr ≡ m.ptr
  pub props : m'.props ≡ m.props
  pub color : m'.color ≡ m.color
  pub holders : m'.holders ≡ m.holders
  pub sorted : IsSorted m'.before
  pub from : (b : ℕ) → In b m'.before → In b m.before
  pub keeps : (b : ℕ) → In b m.before → b ≢ lk → In b m'.before
  pub gone : sure → ¬ In lk m'.before

module _ (lk : ℕ) where
  Trimmed-self : (sure : Type 0) (m : Lock) → IsSorted m.before → ¬ sure → Trimmed lk sure m m
  Trimmed-self sure m s n = record {
    ptr = refl;
    props = refl;
    color = refl;
    holders = refl;
    sorted = s;
    from = λ b k. k;
    keeps = λ b k ne. k;
    gone = λ u. absurd (n u);
  }

  Trimmed-once :
      (sure : Type 0) (m : Lock)
      → IsSorted m.before
      → Trimmed lk sure m (record m { before = lk_remove_sorted m.before lk })
  Trimmed-once sure m s =
      let (s', same) = lk_remove_sorted_set m.before lk s in
      record {
        ptr = refl;
        props = refl;
        color = refl;
        holders = refl;
        sorted = s';
        from = λ b k. ((same b).0 k).0;
        keeps = λ b k ne. (same b).1 (k, ne);
        gone = λ u k. ((same lk).0 k).1 refl;
      }

  Trimmed-trans :
      (P Q R : Type 0) (m m1 m2 : Lock)
      → (R → P ⊎ Q)
      → Trimmed lk P m m1
      → Trimmed lk Q m1 m2
      → Trimmed lk R m m2
  Trimmed-trans P Q R m m1 m2 split t u = record {
    ptr = u.ptr ∙ t.ptr;
    props = u.props ∙ t.props;
    color = u.color ∙ t.color;
    holders = u.holders ∙ t.holders;
    sorted = u.sorted;
    from = λ b k. t.from b (u.from b k);
    keeps = λ b k ne. u.keeps b (t.keeps b k ne) ne;
    gone = λ r k. out (split r) k;
  }
    where
      out : P ⊎ Q → ¬ In lk m2.before
      out (inl p) k = t.gone p (u.from lk k)
      out (inr q) k = u.gone q k

  -- The heap after the loop over `nodes`.
  pub record Swept (T : TreeLib) (nodes : List ℕ) (h h' : Heap) : Type 0 where
    pub kept :
        (x : ℕ) (m : Lock)
        → h x ≡ some m
        → (m' : Lock) × (h' x ≡ some m') × Trimmed lk (In x nodes) m m'
    pub dead : (x : ℕ) → h x ≡ none → h' x ≡ none

  module _ (T : TreeLib) where
    remove_before-Swept :
        (h : Heap) (a : ℕ) (l : Lock)
        → ((x : ℕ) (m : Lock) → h x ≡ some m → IsSorted m.before)
        → h a ≡ some l
        → (h' : Heap) × (lk_remove_before T a lk h ≡ done h') × Swept T (a ∷ []) h h'
    unfolding lk_remove_before
    remove_before-Swept h a l sorted at = (
      store a (record l { before = lk_remove_sorted l.before lk }) h,
      rw (at, lk_remove_before),
      record { kept = kept; dead = λ x e. store_ne a x _ h (λ ax. cc (at, e, ax)) ∙ e },
    )
      where
        only : (x : ℕ) → a ≢ x → ¬ In x (a ∷ [])
        only x n (inl e) = n (sym e)
        only x n (inr m) = m

        kept :
            (x : ℕ) (m : Lock)
            → h x ≡ some m
            → (m' : Lock) × (store a (record l { before = lk_remove_sorted l.before lk }) h x
                ≡ some m')
              × Trimmed lk (In x (a ∷ [])) m m'
        kept x m e = elim (ℕ_discrete a x) [
          | yes p ↦
              let same : m ≡ l = cc (e, rw p at at) in
              (
                record l { before = lk_remove_sorted l.before lk },
                rw p (store_self x _ h),
                rw same (Trimmed-once (In x (a ∷ [])) l (sorted a l at)),
              )
          | no n ↦
              (m, store_ne a x _ h n ∙ e, Trimmed-self (In x (a ∷ [])) m (sorted x m e) (only x n))
        ]

    pub remove_before_all-Swept :
        (nodes : List ℕ) (h : Heap)
        → ((x : ℕ) (m : Lock) → h x ≡ some m → IsSorted m.before)
        → ((x : ℕ) → In x nodes → (m : Lock) × (h x ≡ some m))
        → (h' : Heap) × (remove_before_all T nodes lk h ≡ done h') × Swept T nodes h h'
    unfolding remove_before_all
    remove_before_all-Swept [] h sorted live = (
      h,
      refl,
      record { kept = λ x m e. (m, e, Trimmed-self ⊥ m (sorted x m e) (λ z. z)); dead = λ x e. e },
    )
    remove_before_all-Swept (a ∷ nodes) h sorted live =
        let (l, at) = live a (inl refl) in
        let (h1, e1, s1) = remove_before-Swept h a l sorted at in
        let (h2, e2, s2) =
          remove_before_all-Swept nodes h1 (λ x m e. still h1 s1 x m e (Option-cases (h x)))
            (λ x k. let (m, f) = live x (inr k) in let (m', f', _) = s1.kept x m f in (m', f')) in
        (
          h2,
          rw (e1, e2),
          record {
            kept = λ x m e.
                let (m1, f1, t1) = s1.kept x m e in
                let (m2, f2, t2) = s2.kept x m1 f1 in
                (
                  m2,
                  f2,
                  Trimmed-trans (In x (a ∷ [])) (In x nodes) (In x (a ∷ nodes)) m m1 m2 (split x) t1
                      t2,
                );
            dead = λ x e. s2.dead x (s1.dead x e);
          },
        )
      where
        split : (x : ℕ) → In x (a ∷ nodes) → In x (a ∷ []) ⊎ In x nodes
        split x (inl e) = inl (inl e)
        split x (inr m) = inr m

        still :
            (h1 : Heap)
            → Swept T (a ∷ []) h h1
            → (x : ℕ) (m : Lock) → h1 x ≡ some m
            → (h x ≡ none) ⊎ ((m : Lock) × (h x ≡ some m))
            → IsSorted m.before
        still h1 s x m e (inl f) = cc (s.dead x f, e)
        still h1 s x m e (inr (n, f)) =
            let (m1, f1, t) = s.kept x n f in let same : m1 ≡ m = cc (f1, e) in rw same at t.sorted
