-- ===== src/Depends/Link.antt =====
-- What the order check leaves behind when it reports no inversion: the held locks come before the
-- lock that is taken.
use lksmith.Base.{
  ℕ, suc, ◌+◌, ◌^◌, ◌<◌, ◌%◌, ◌≡◌, refl, sym, ◌∙◌, ◌≢◌, ◌⊎◌, inl, inr, Bool, true, false, List, [],
  ◌∷◌, ◌++◌, some, arith, In, In-append, done, Ensures, ==_ne, subst,
}
use lksmith.Lock.{Lock, Heap}
use lksmith.Sorted.{lk_add_sorted}
use lksmith.Sorted.Laws.{IsSorted, lk_add_sorted_set}
use lksmith.Tree.{TreeLib}
use lksmith.Report.{Report}
use lksmith.Search.Paint.{erase}
use lksmith.Graph.{Graph, IsWf, lksmith_find}
use lksmith.Graph.Update.{store_self, lk_add_before_lem}
use lksmith.Graph.Walk.{erase-eq, search_graph}
use lksmith.Depends.{depend, depend_all, searched, lksmith_prelock_process_depends}
use lksmith.Depends.Grow.{Grows}
use lksmith.Depends.Round.{inversions, depend-Round}
use lksmith.Depends.Order.{inversions-append, depend_all-Checked, bump-IsTrue}

-- An append that leaves no inversion in the log had none to begin with.
pub quiet_before :
    (log rs : List Report)
    → inversions (log ++ rs) ≡ []
    → (inversions log ≡ []) × (inversions rs ≡ [])
quiet_before log rs q = split (inversions log) (inversions rs) (sym (inversions-append log rs) ∙ q)
  where
    split : (xs ys : List ℕ) → xs ++ ys ≡ [] → (xs ≡ []) × (ys ≡ [])
    split [] ys e = (refl, e)
    split (x ∷ xs) ys e = absurd (cc e)

-- An inversion of an append is one of the first or of the second log.
pub In-inversions :
    (log rs : List Report) (h : ℕ)
    → In h (inversions (log ++ rs))
    → In h (inversions log) ⊎ In h (inversions rs)
In-inversions log rs h m =
    (In-append h (inversions log) (inversions rs)).0 (rw (inversions-append log rs) at m)

-- The lock at `ak` comes before the lock at `lk`.
abbrev pub Precedes : ℕ → ℕ → Heap → Type 0
Precedes ak lk h = (l : Lock) × (h lk ≡ some l) × In ak l.before

-- With memory, lk_add_sorted has the entry afterwards.
In-added : (arr : List ℕ) (ak : ℕ) → IsSorted arr → In ak (lk_add_sorted true arr ak).1
In-added arr ak sorted = elim (lk_add_sorted_set true arr ak sorted).1 [
  | inl (_, same) ↦ (same ak).1 (inr refl)
  | inr (_, e, _, _) ↦ cc e
]

module _ (T : TreeLib) (lk ptr : ℕ) where
  abbrev Linked : ℕ → Graph T × List Report → Type 0
  Linked ak r = inversions r.1 ≡ [] → Precedes ak lk r.0.heap

  -- One round, for a known held lock.
  depend-Linked :
      (held ak : ℕ) (g : Graph T) (l : Lock)
      → IsWf T g
      → g.heap lk ≡ some l
      → T.find held g.tree ≡ some ak
      → ak ≢ lk
      → Ensures (Linked ak) (depend T true lk ptr held g)
  unfolding depend searched lksmith_find
  depend-Linked held ak g l w at known other =
      let (a, live, _) = w.find-live held ak known in
      let (found, h, run, wf, s, _, _) = search_graph T g ptr ak a w live in
      rw (known, depend, ==_ne ak lk other, run) (finish found h wf s)
    where
      finish :
          (found : Bool) (h : Heap)
          → IsWf T (record g { heap = h })
          → ((x : ℕ) → erase (h x) ≡ erase (g.heap x))
          → Ensures (Linked ak) (searched T true lk ptr held ak (found, h) g)
      finish true h wf s = λ q. absurd (cc q)
      finish false h wf s =
          let (l1, at1, _, _, _, _) = erase-eq (g.heap lk) (h lk) l (sym (s lk)) at in
          rw (lk_add_before_lem T true lk ak (record g { heap = h }) l1 at1) (λ q. (
            _,
            store_self lk (record l1 { before = (lk_add_sorted true l1.before ak).1 }) h,
            In-added l1.before ak (wf.before-IsSorted lk l1 at1),
          ))

  depend_all-Linked :
      (grow : ℕ → Bool) (i : ℕ) (held : List ℕ) (g : Graph T) (l : Lock)
      → IsWf T g
      → g.heap lk ≡ some l
      → l.ptr ≡ ptr
      → ((j : ℕ) → grow j ≡ true)
      → (h ak : ℕ) → In h held
      → T.find h g.tree ≡ some ak
      → ak ≢ lk
      → Ensures (Linked ak) (depend_all T grow i lk ptr held g)
  unfolding depend_all
  depend_all-Linked grow i [] g l w at own memory h ak m known other = absurd m
  depend_all-Linked grow i (k ∷ held) g l w at own memory h ak m known other =
      let (g1, rs, e, p, _) =
        depend-Round T lk ptr (λ b. Unit) g l w at own (grow i) k (λ b f n. tt) in
      let (l1, at1, x) = p.locks lk l at in
      let (g2, ss, e2, q) =
        depend_all-Checked T lk ptr (λ b. Unit) grow (suc i) held g1 l1 p.wf at1 (x.ptr ∙ own)
          (λ j b _ f n. tt) in
      rw (e, e2)
        (λ quiet.
          pick g1 g2 rs ss e e2 q.grows
            (λ n.
              depend_all-Linked grow (suc i) held g1 l1 p.wf at1 (x.ptr ∙ own) memory h ak n
                (rw p.tree known) other)
            (quiet_before rs ss quiet) m)
    where
      first :
          (g1 : Graph T) (rs : List Report)
          → depend T (grow i) lk ptr k g ≡ done (g1, rs)
          → h ≡ k
          → Linked ak (g1, rs)
      first g1 rs e same =
          let run : depend T true lk ptr k g ≡ done (g1, rs) = rw (memory i) at e in
          subst (Ensures (Linked ak)) run (depend-Linked k ak g l w at (rw same at known) other)

      pick :
          (g1 g2 : Graph T) (rs ss : List Report)
          → depend T (grow i) lk ptr k g ≡ done (g1, rs)
          → depend_all T grow (suc i) lk ptr held g1 ≡ done (g2, ss)
          → Grows T lk (λ b. Unit) g1 g2
          → (In h held → Ensures (Linked ak) (depend_all T grow (suc i) lk ptr held g1))
          → (inversions rs ≡ []) × (inversions ss ≡ [])
          → (h ≡ k) ⊎ In h held
          → Precedes ak lk g2.heap
      pick g1 g2 rs ss e e2 grows later (none_now, _) (inl hk) =
          let (l2, at2, m2) = first g1 rs e hk none_now in
          let (l3, at3, y) = grows.locks lk l2 at2 in (l3, at3, y.keeps ak m2)
      pick g1 g2 rs ss e e2 grows later (_, none_later) (inr n) =
          subst (Ensures (Linked ak)) e2 (later n) none_later

  -- The order check as a whole.
  pub process_depends-Linked :
      (grow : ℕ → Bool) (held : List ℕ) (g : Graph T) (l : Lock)
      → IsWf T g
      → g.heap lk ≡ some l
      → l.ptr ≡ ptr
      → g.color + 1 < 2 ^ 64
      → ((j : ℕ) → grow j ≡ true)
      → (h ak : ℕ) → In h held
      → T.find h g.tree ≡ some ak
      → ak ≢ lk
      → Ensures (Linked ak) (lksmith_prelock_process_depends T grow held lk ptr g)
  unfolding lksmith_prelock_process_depends
  process_depends-Linked grow held g l w at own small =
      let c = (g.color + 1) % 2 ^ 64 in
      let (wf, _) = bump-IsTrue T lk ptr g c w (omega arith) in
      depend_all-Linked grow 0 held (record g { color = c }) l wf at own
