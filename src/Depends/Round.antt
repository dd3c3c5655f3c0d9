-- ===== src/Depends/Round.antt =====
-- One round of the order check.
use lksmith.Base.{
  ℕ, suc, ◌≡◌, refl, sym, ap, ◌∙◌, ◌≢◌, ◌⊎◌, inl, inr, Bool, true, false, List, [], ◌∷◌, some, In,
  if◌then◌else◌, Outcome, done, length, ℕ_discrete, ◌>>=◌, ==_refl, ==_ne, Option-cases,
}
use lksmith.Lock.{Lock, Heap}
use lksmith.Tree.{TreeLib}
use lksmith.Report.{Report, inversion, already_held}
use lksmith.Search.Paint.{erase, is_painted, Painted}
use lksmith.Search.Post.{Leads}
use lksmith.Search.{lksmith_search}
use lksmith.Code.{edeadlk}
use lksmith.Graph.{Graph, IsWf, lksmith_find}
use lksmith.Graph.Walk.{IsTrue, erase-eq, erase-erase, search_graph}
use lksmith.Depends.{depend, searched, same_lock}
use lksmith.Depends.Grow.{
  Grows, Grows-refl, Grows-trans, Grows-recolor, Grows-live, lk_add_before-Grows,
}

-- The held locks that the inversion reports name.
abbrev pub inversions : List Report → List ℕ
inversions [] = []
inversions (r ∷ rs) = elim r.message [
  | inversion ptr held ↦ held ∷ inversions rs
  | _ ↦ inversions rs
]

module _ (T : TreeLib) (lk ptr : ℕ) where
  -- `held` is a known lock other than the one to be taken, and must be taken after it.
  abbrev pub Inverts : Graph T → ℕ → Type 0
  Inverts g held = (ak : ℕ) × (T.find held g.tree ≡ some ak) × (ak ≢ lk) × Leads g.heap ptr ak

  pub record Round (g g' : Graph T) (held : ℕ) (rs : List Report) : Type 0 where
    pub sound : (h : ℕ) → In h (inversions rs) → (h ≡ held) × Inverts g held
    pub full : IsTrue T ptr g → In held (inversions rs) ⊎ (¬ Inverts g held) × IsTrue T ptr g'

  -- The growth of the one lock that no true colour touches leaves the colours true.
  IsTrue-Grows :
      (Added : ℕ → Type 0) (g g' : Graph T) (l : Lock)
      → IsWf T g
      → Grows T lk Added g g'
      → ((x c : ℕ) → is_painted c (g'.heap x) ≡ is_painted c (g.heap x))
      → g.heap lk ≡ some l
      → l.ptr ≡ ptr
      → IsTrue T ptr g
      → IsTrue T ptr g'
  IsTrue-Grows Added g g' l w grow paint at own clean x p m e =
      let (m1, e1, q1, _, _, b1) =
        erase-eq (erase (g'.heap x)) (g'.heap x) m (erase-erase (g'.heap x)) e in
      let (m0, f, r) = Grows-live T lk Added g g' w grow x m1 e1 in
      let p0 : Painted g.color g.heap x = sym (paint x g.color) ∙ (rw grow.color at p) in
      let (ne, all) = clean x p0 (record m0 { color = 0 }) (ap erase f) in
      (λ z. ne (sym r.ptr ∙ sym q1 ∙ z), λ y k. entry m0 f y ne (all y) (r.adds y (rw b1 at k)))
    where
      entry :
          (m0 : Lock)
          → g.heap x ≡ some m0
          → (y : ℕ) → m0.ptr ≢ ptr
          → (In y m0.before → Painted g.color g.heap y)
          → In y m0.before ⊎ (x ≡ lk) × Added y
          → Painted g'.color g'.heap y
      entry m0 f y ne all (inl k) = rw grow.color (paint y g.color ∙ all k)
      entry m0 f y ne all (inr (ex, _)) =
          let there : g.heap lk ≡ some m0 = rw ex at f in
          let same : m0 ≡ l = cc (there, at) in absurd (ne (rw same own))

  module _ (Added : ℕ → Type 0) (g : Graph T) (l : Lock) (w : IsWf T g) (at : g.heap lk ≡ some l)
      (own : l.ptr ≡ ptr) where
    abbrev Result : ℕ → Outcome (Graph T × List Report) → Type 0
    Result held o =
        (g' : Graph T) × (rs : List Report) × (o ≡ done (g', rs))
        × Grows T lk Added g g'
        × Round g g' held rs

    -- A round that does not search.
    Round-plain :
        (held : ℕ) (rs : List Report)
        → inversions rs ≡ []
        → ¬ Inverts g held
        → Result held (done (g, rs))
    Round-plain held rs e out = (
      g,
      rs,
      refl,
      Grows-refl T lk Added g w,
      record { sound = λ h m. absurd (rw e at m); full = λ t. inr (out, t) },
    )

    same_lock-Round : (held : ℕ) → ¬ Inverts g held → Result held (same_lock T ptr (g.heap lk) g)
    unfolding same_lock
    same_lock-Round held out = rw (at, same_lock) (pick l.props.recursive)
      where
        pick :
            (b : Bool)
            → Result held (
                done
                  (g, if b then [] else record { code = edeadlk; message = already_held ptr } ∷ []))
        pick true = Round-plain held [] refl out
        pick false = Round-plain held _ refl out

    pub depend-Round :
        (grown : Bool) (held : ℕ)
        → ((ak : ℕ) → T.find held g.tree ≡ some ak → ak ≢ lk → Added ak)
        → Result held (depend T grown lk ptr held g)
    unfolding depend lksmith_find searched
    depend-Round grown held allowed = elim (Option-cases (T.find held g.tree)) [
      | inl e ↦ rw (e, depend) (Round-plain held _ refl (λ (ak, f, _, _). cc (e, f)))
      | inr (ak, e) ↦
          rw (e, depend)
            (elim (ℕ_discrete ak lk) [
              | yes same ↦
                  rw (same, ==_refl lk) (same_lock-Round held (λ (b, f, n, _). n (cc (e, f, same))))
              | no other ↦ rw (==_ne ak lk other) (search_it ak e other (w.find-live held ak e))
            ])
    ]
      where
        finish :
            (ak : ℕ) (a : Lock) (h : Heap) (found : Bool)
            → T.find held g.tree ≡ some ak
            → ak ≢ lk
            → g.heap ak ≡ some a
            → IsWf T (record g { heap = h })
            → ((x : ℕ) → erase (h x) ≡ erase (g.heap x))
            → (found ≡ true → Leads g.heap ptr ak)
            → (IsTrue T ptr g
                → found ≡ false
                → (¬ Leads g.heap ptr ak) × IsTrue T ptr (record g { heap = h }))
            → Result held (searched T grown lk ptr held ak (found, h) g)
        finish ak a h true e ne live wf s hit miss = (
          record g { heap = h },
          record { code = edeadlk; message = inversion ptr held } ∷ [],
          refl,
          Grows-recolor T lk Added g h s wf,
          record { sound = λ x m. (only x m, (ak, e, ne, hit refl)); full = λ t. inl (inl refl) },
        )
          where
            only : (x : ℕ) → In x (held ∷ []) → x ≡ held
            only x (inl p) = p
            only x (inr m) = absurd m
        finish ak a h false e ne live wf s hit miss =
            let (l1, at1, p1, _, _, _) = erase-eq (g.heap lk) (h lk) l (sym (s lk)) at in
            let (a1, live1, _, _, _, _) = erase-eq (g.heap ak) (h ak) a (sym (s ak)) live in
            let (g', e', grow, paint) =
              lk_add_before-Grows T lk Added grown (record g { heap = h }) l1 a1 ak wf at1 live1
                (allowed ak e ne) in
            (
              g',
              [],
              rw e',
              Grows-trans T lk Added g (record g { heap = h }) g'
                  (Grows-recolor T lk Added g h s wf) grow,
              record {
                sound = λ x m. absurd m;
                full = λ t.
                    let (out, clean) = miss t refl in
                    inr (
                      λ (b, f, n, v). let same : b ≡ ak = cc (e, f) in out (rw same at v),
                      IsTrue-Grows Added (record g { heap = h }) g' l1 wf grow paint at1
                          (sym p1 ∙ own) clean,
                    );
              },
            )

        search_it :
            (ak : ℕ)
            → T.find held g.tree ≡ some ak
            → ak ≢ lk
            → (a : Lock) × (g.heap ak ≡ some a) × (a.ptr ≡ held)
            → Result held (
                lksmith_search (suc (length (T.elements g.tree))) g.color ptr ak g.heap >>= λ r.
                searched T grown lk ptr held ak r g)
        search_it ak e ne (a, live, _) =
            let (found, h, run, wf, s, hit, miss) = search_graph T g ptr ak a w live in
            rw run (finish ak a h found e ne live wf s hit miss)
