-- ===== src/System/Sources.antt =====
-- Where an edge between two mutexes comes from: no call but lksmith_prelock makes one.
use lksmith.Base.{
  ℕ, ◌≡◌, ◌≢◌, ◌⊎◌, inl, inr, refl, sym, ◌∙◌, none, some, if◌then◌else◌, ◌==◌, In, ==_refl, ==_ne,
  ℕ_discrete,
}
use lksmith.Lock.{Lock, store}
use lksmith.Tree.{TreeLib}
use lksmith.Graph.{Graph, IsWf}
use lksmith.Graph.Remove.{Trimmed}
use lksmith.Graph.Update.{store-cases}
use lksmith.Depends.Grow.{Grows, Grows-live}
use lksmith.Depends.Acyclic.{Chain, last, more, Leads-Chain}
use lksmith.Depends.Round.{Inverts}
use lksmith.System.Links.{Edge, Ways, once, Ways-trans}

module _ (T : TreeLib) where
  pub Edge-store_inv :
      (g : Graph T) (lk : ℕ) (l l' : Lock)
      → g.heap lk ≡ some l
      → l'.before ≡ l.before
      → (p q : ℕ) → Edge T (record g { heap = store lk l' g.heap }) p q
      → Edge T g p q
  Edge-store_inv g lk l l' at same p q (a, b, f, k, (m, e, i)) =
      entry (store-cases lk b l' m g.heap e)
    where
      entry : ((b ≡ lk) × (m ≡ l')) ⊎ ((lk ≢ b) × (g.heap b ≡ some m)) → Edge T g p q
      entry (inl (here, eq)) = (a, b, f, k, (l, rw here at, rw (← same, ← eq) i))
      entry (inr (_, old)) = (a, b, f, k, (m, old, i))

  pub Edge-insert_inv :
      (g g' : Graph T) (ptr new : ℕ) (l : Lock)
      → IsWf T g
      → g.heap new ≡ none
      → ((p : ℕ) → T.find p g'.tree ≡ (if ptr == p then some new else T.find p g.tree))
      → g'.heap new ≡ some l
      → ((b : ℕ) → ¬ In b l.before)
      → ((x : ℕ) → new ≢ x → g'.heap x ≡ g.heap x)
      → (p q : ℕ) → Edge T g' p q
      → Edge T g p q
  Edge-insert_inv g g' ptr new l w fresh found live empty others p q (a, b, f, k, (m, e, i)) =
      let nb : new ≢ b = λ same.
        let here : g'.heap new ≡ some m = rw same e in
        let eq : m ≡ l = cc (here, live) in empty a (rw eq at i) in
      let old : g.heap b ≡ some m = sym (others b nb) ∙ e in
      let (n, u) = w.before-live b m old a i in
      let na : new ≢ a = λ same. cc (u, fresh, same) in
      (a, b, was p a f na, was q b k nb, (m, old, i))
    where
      was : (p a : ℕ) → T.find p g'.tree ≡ some a → new ≢ a → T.find p g.tree ≡ some a
      was p a f ne = elim (ℕ_discrete ptr p) [
        | yes same ↦
            let z : T.find p g'.tree ≡ some new = found p ∙ (rw same (rw (==_refl p) refl)) in
            absurd (ne (cc (z, f)))
        | no other ↦
            let z : T.find p g'.tree ≡ T.find p g.tree = found p ∙ (rw (==_ne ptr p other) refl) in
            sym z ∙ f
      ]

  pub Edge-forget_inv :
      (g g' : Graph T) (lk : ℕ)
      → IsWf T g
      → IsWf T g'
      → g'.heap lk ≡ none
      → ((x : ℕ) (m : Lock)
          → g.heap x ≡ some m
          → x ≢ lk
          → (m' : Lock) × (g'.heap x ≡ some m') × Trimmed lk (Unit {0}) m m')
      → ((x : ℕ) (m' : Lock)
          → g'.heap x ≡ some m'
          → (m : Lock) × (g.heap x ≡ some m) × ((b : ℕ) → In b m'.before → In b m.before))
      → (p q : ℕ) → Edge T g' p q
      → Edge T g p q
  Edge-forget_inv g g' lk w w' gone stays from p q (a, b, f, k, (m, e, i)) =
      let (m0, e0, sub) = from b m e in (a, b, was p a f, was q b k, (m0, e0, sub a i))
    where
      was : (p a : ℕ) → T.find p g'.tree ≡ some a → T.find p g.tree ≡ some a
      was p a f =
          let (n', u', r) = w'.find-live p a f in
          let (n, u, _) = from a n' u' in
          let (n'', u'', t) = stays a n u (λ same. cc (gone, u', same)) in
          let eq : n'' ≡ n' = cc (u', u'') in
          let own : n.ptr ≡ p = sym t.ptr ∙ (rw eq r) in rw own at (w.live-find a n u)

  -- An edge after the order check is one from before, or leaves the lock that is taken.
  pub Edge-Grows_inv :
      (lk ptr : ℕ) (Added : ℕ → Type 0) (g g' : Graph T) (l : Lock)
      → IsWf T g
      → Grows T lk Added g g'
      → g.heap lk ≡ some l
      → l.ptr ≡ ptr
      → (p q : ℕ) → Edge T g' p q
      → Edge T g p q ⊎ (q ≡ ptr) × ((a : ℕ) × (T.find p g.tree ≡ some a) × Added a)
  Edge-Grows_inv lk ptr Added g g' l w grow at own p q (a, b, f, k, (m, e, i)) =
      let (m0, e0, x) = Grows-live T lk Added g g' w grow b m e in
      entry m0 e0 (rw grow.tree at f) (rw grow.tree at k) (x.adds a i)
    where
      entry :
          (m0 : Lock)
          → g.heap b ≡ some m0
          → T.find p g.tree ≡ some a
          → T.find q g.tree ≡ some b
          → In a m0.before ⊎ (b ≡ lk) × Added a
          → Edge T g p q ⊎ (q ≡ ptr) × ((a : ℕ) × (T.find p g.tree ≡ some a) × Added a)
      entry m0 e0 f k (inl old) = inl (a, b, f, k, (m0, e0, old))
      entry m0 e0 f k (inr (here, new)) =
          let (n, u, r) = w.find-live q b k in
          let there : g.heap lk ≡ some n = rw here at u in
          let eq : n ≡ l = cc (there, at) in inr (sym r ∙ (rw eq own), (a, f, new))

  -- A chain of `before` entries between structures is a way between their mutexes.
  pub Chain-Ways :
      (g : Graph T) (w : IsWf T g) (y x : ℕ) (my mx : Lock)
      → g.heap y ≡ some my
      → g.heap x ≡ some mx
      → Chain g.heap y x
      → Ways (Edge T g) my.ptr mx.ptr
  Chain-Ways g w y x my mx ey ex (last l e k) =
      once (y, x, w.live-find y my ey, w.live-find x mx ex, (l, e, k))
  Chain-Ways g w y x my mx ey ex (more l z e k c) =
      let (mz, ez) = w.before-live x l e z k in
      Ways-trans (Edge T g) my.ptr mz.ptr mx.ptr (Chain-Ways g w y z my mz ey ez c)
        (once (z, x, w.live-find z mz ez, w.live-find x mx ex, (l, e, k)))

  pub find_inj :
      (g : Graph T)
      → IsWf T g
      → (p q a : ℕ) → T.find p g.tree ≡ some a
      → T.find q g.tree ≡ some a
      → p ≡ q
  find_inj g w p q a f k =
      let (m, e, r) = w.find-live p a f in
      let (n, u, t) = w.find-live q a k in
      let same : m ≡ n = cc (e, u) in sym r ∙ (rw (← same) at t)

  -- A held mutex that inverts the order is reached from the one that is taken.
  pub Inverts-Ways :
      (lk ptr : ℕ) (g : Graph T) (l : Lock)
      → IsWf T g
      → g.heap lk ≡ some l
      → l.ptr ≡ ptr
      → (h : ℕ) → Inverts T lk ptr g h
      → Ways (Edge T g) ptr h
  Inverts-Ways lk ptr g l w at own h (ak, f, ne, v) = pick (Leads-Chain T lk ptr g l w at own ak v)
    where
      pick : (ak ≡ lk) ⊎ Chain g.heap lk ak → Ways (Edge T g) ptr h
      pick (inl same) = absurd (ne same)
      pick (inr c) =
          let (m, e, r) = w.find-live h ak f in rw (own, r) at (Chain-Ways g w lk ak l m at e c)
