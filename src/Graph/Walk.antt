-- ===== src/Graph/Walk.antt =====
-- lksmith_search on the graph of a tree: it returns and keeps the graph well-formed.
use lksmith.Base.{
  ℕ, suc, ◌≤◌, ◌≡◌, refl, sym, ap, ◌∙◌, ◌≢◌, ◌⊎◌, inl, inr, Bool, true, false, List, [], ◌∷◌,
  Option, none, some, arith, In, done, length, ◌↔◌,
}
use mathlib.Core.Logic.{∥∥₁_elim}
use mathlib.Core.Bool.{So-prop}
use lksmith.Lock.{Lock, Heap}
use lksmith.Tree.{TreeLib}
use lksmith.Search.{lksmith_search}
use lksmith.Search.Paint.{erase, Painted, is_painted, white}
use lksmith.Search.Post.{Leads, here, step, IsClean}
use lksmith.Search.Total.{search-decides}
use lksmith.Graph.{Graph, IsWf}

-- Two structures that differ in colour only.
pub erase-eq :
    (o' o : Option Lock) (l' : Lock)
    → erase o' ≡ erase o
    → o' ≡ some l'
    → (l : Lock) × (o ≡ some l)
      × (l'.ptr ≡ l.ptr)
      × (l'.props ≡ l.props)
      × (l'.holders ≡ l.holders)
      × (l'.before ≡ l.before)
erase-eq none o l' s e = cc
erase-eq (some m) none l' s e = cc
erase-eq (some m) (some l) l' s e =
    (l, refl, ground arith, ground arith, ground arith, ground arith)

white-le-length : (c : ℕ) (h : Heap) (xs : List ℕ) → white c h xs ≤ length xs
white-le-length c h [] = omega arith
white-le-length c h (x ∷ xs) = ground (arith, white-le-length c h xs)

pub Leads-erase :
    (h h' : Heap) (start x : ℕ)
    → ((x : ℕ) → erase (h' x) ≡ erase (h x))
    → Leads h' start x
    → Leads h start x
Leads-erase h h' start x s (here l e p) =
    let (m, f, q, _, _, _) = erase-eq (h' x) (h x) l (s x) e in here m f (sym q ∙ p)
Leads-erase h h' start x s (step l y e m w) =
    let (n, f, _, _, _, b) = erase-eq (h' x) (h x) l (s x) e in
    step n y f (rw (← b) m) (Leads-erase h h' start y s w)

pub erase-erase : (o : Option Lock) → erase (erase o) ≡ erase o
erase-erase none = refl
erase-erase (some l) = refl

module _ (T : TreeLib) where
  -- The colours of the current search tell the truth about `start`.
  abbrev pub IsTrue : ℕ → Graph T → Type 0
  IsTrue start g = IsClean g.color start (λ x. erase (g.heap x)) g.heap

  -- A change of colours, none newer than g_color, keeps a graph well-formed.
  pub IsWf-recolor :
      (g : Graph T) (h : Heap)
      → IsWf T g
      → ((x : ℕ) → erase (h x) ≡ erase (g.heap x))
      → ((x : ℕ) → (h x ≡ g.heap x) ⊎ Painted g.color h x)
      → IsWf T (record g { heap = h })
  IsWf-recolor g h w s colors = record {
    find-live = λ p a e.
        let (l, f, q) = w.find-live p a e in
        let (m, n, r, _, _, _) = erase-eq (g.heap a) (h a) l (sym (s a)) f in (m, n, sym r ∙ q);
    live-find = λ a l e.
        let (m, f, q, _, _, _) = erase-eq (h a) (g.heap a) l (s a) e in rw q (w.live-find a m f);
    before-live = λ a l e b k.
        let (m, f, _, _, _, q) = erase-eq (h a) (g.heap a) l (s a) e in
        let (n, u) = w.before-live a m f b (rw (← q) k) in
        let (v, t, _, _, _, _) = erase-eq (g.heap b) (h b) n (sym (s b)) u in (v, t);
    before-IsSorted = λ a l e.
        let (m, f, _, _, _, q) = erase-eq (h a) (g.heap a) l (s a) e in
        rw q (w.before-IsSorted a m f);
    color-le = λ a l e. bound a l e (colors a);
  }
    where
      bound :
          (a : ℕ) (l : Lock)
          → h a ≡ some l
          → (h a ≡ g.heap a) ⊎ Painted g.color h a
          → l.color ≤ g.color
      bound a l e (inl f) = w.color-le a l (sym f ∙ e)
      bound a l e (inr p) = ground arith

  pub search_graph :
      (g : Graph T) (start ak : ℕ) (a : Lock)
      → IsWf T g
      → g.heap ak ≡ some a
      → (found : Bool) × (h : Heap) × (lksmith_search
            (suc (length (T.elements g.tree)))
            g.color
            start
            ak
            g.heap
          ≡ done (found, h))
        × IsWf T (record g { heap = h })
        × ((x : ℕ) → erase (h x) ≡ erase (g.heap x))
        × (found ≡ true → Leads g.heap start ak)
        × (IsTrue start g
            → found ≡ false
            → (¬ Leads g.heap start ak) × IsTrue start (record g { heap = h }))
  search_graph g start ak a w live =
      let G : Heap = λ x. erase (g.heap x) in
      let (found, h, e, s, colors, hit, miss) =
        search-decides g.color start G closed (T.elements g.tree) cover
          (suc (length (T.elements g.tree))) ak g.heap
          (omega (arith, white-le-length g.color g.heap (T.elements g.tree))) (λ x. refl)
          (record a { color = 0 }, ap erase live) in
      (
        found,
        h,
        e,
        IsWf-recolor g h w s colors,
        s,
        λ f. Leads-erase g.heap G start ak (λ x. erase-erase (g.heap x)) (hit f),
        λ t f.
            let (out, clean) = miss t f in
            (
              λ w'. out (Leads-erase G g.heap start ak (λ x. sym (erase-erase (g.heap x))) w'),
              λ x p l e'. clean x p l (sym (s x) ∙ e'),
            ),
      )
    where
      closed :
          (x : ℕ) (l : Lock)
          → erase (g.heap x) ≡ some l
          → (y : ℕ) → In y l.before
          → (m : Lock) × (erase (g.heap y) ≡ some m)
      closed x l e y k =
          let (m, f, _, _, _, q) =
            erase-eq (erase (g.heap x)) (g.heap x) l (erase-erase (g.heap x)) e in
          let (n, u) = w.before-live x m f y (rw (← q) k) in (record n { color = 0 }, ap erase u)

      cover : (x : ℕ) (l : Lock) → erase (g.heap x) ≡ some l → In x (T.elements g.tree)
      cover x l e =
          let (m, f, _, _, _, _) =
            erase-eq (erase (g.heap x)) (g.heap x) l (erase-erase (g.heap x)) e in
          (T.In-elements x g.tree).1 (m.ptr, w.live-find x m f)

-- On a well-formed graph where no lock has the current colour, the search of a live lock returns, with
-- no dangling pointer read and the fuel given; it finds the lock sought exactly if `before` entries
-- lead to it; and it keeps the graph well-formed and changes nothing but colours.
pub lksmith_search_fresh :
    (T : TreeLib) (g : Graph T) (start ak : ℕ) (a : Lock)
    → IsWf T g
    → g.heap ak ≡ some a
    → ((x : ℕ) (l : Lock) → g.heap x ≡ some l → l.color ≢ g.color)
    → (found : Bool) × (h : Heap) × (lksmith_search
          (suc (length (T.elements g.tree)))
          g.color
          start
          ak
          g.heap
        ≡ done (found, h))
      × ((found ≡ true) ↔ ∥ Leads g.heap start ak ∥₁)
      × IsWf T (record g { heap = h })
      × ((x : ℕ) → erase (h x) ≡ erase (g.heap x))
lksmith_search_fresh T g start ak a w live white =
    let (found, h, e, wf, s, hit, miss) = search_graph T g start ak a w live in
    (
      found,
      h,
      e,
      (
        λ f. ∣ hit f ∣₁,
        λ v. ∥∥₁_elim v (So-prop found) (λ v. sure found v (λ f. ((miss clean f).0, tt))),
      ),
      wf,
      s,
    )
  where
    clean : IsTrue T start g
    clean x p = absurd (pick x (g.heap x) refl p)
      where
        pick : (x : ℕ) (o : Option Lock) → g.heap x ≡ o → is_painted g.color o ≡ true → ⊥
        pick x none e p = cc
        pick x (some l) e p = white x l e (ground arith)

    sure :
        (found : Bool)
        → Leads g.heap start ak
        → (found ≡ false → (¬ Leads g.heap start ak) × Unit {0})
        → found ≡ true
    sure true v miss = refl
    sure false v miss = absurd ((miss refl).0 v)
