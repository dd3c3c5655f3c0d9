-- ===== src/System/Detection.antt =====
-- Lock inversions: threads that take mutexes in a cyclic order.
use lksmith.Base.{ℕ, ◌^◌, ◌<◌, ◌≡◌, List, [], ◌∷◌, some, inl, refl, In}
use lksmith.Tree.{TreeLib}
use lksmith.Graph.{Graph}
use lksmith.Depends.Round.{inversions}
use lksmith.Depends.Acyclic.{Chain, last, Chain-trans}
use lksmith.Ignore.{TextLib}
use lksmith.World.{World}
use lksmith.System.{Reach}
use lksmith.System.Links.{Edge, Ways, once, next}
use lksmith.System.Linking.{Took, Nested}
use lksmith.System.Safety.{Reach-Inv}

module _ (T : TreeLib) where
  -- The ways between mutexes are chains of `before` entries between their structures.
  Ways-Chain :
      (g : Graph T) (R : ℕ → ℕ → Type 0)
      → ((p q : ℕ) → R p q → Edge T g p q)
      → (p s : ℕ) → Ways R p s
      → (a b : ℕ) × (T.find p g.tree ≡ some a) × (T.find s g.tree ≡ some b) × Chain g.heap a b
  Ways-Chain g R edge p s (once o) =
      let (a, b, f, k, (l, e, m)) = edge p s o in (a, b, f, k, last l e m)
  Ways-Chain g R edge p s (next {q = q} o w) =
      let (a, b, f, k, (l, e, m)) = edge p q o in
      let (b', c, f', k', chain) = Ways-Chain g R edge q s w in
      let same : b' ≡ b = cc (k, f') in
      (a, c, f, k', Chain-trans g.heap b' a c chain (last l (rw same e) m))

  module _ (C : TextLib) where
    -- If threads took mutexes in a cyclic order, then a lock inversion was reported: there are mutexes
    -- each of which some thread held when it took the next, up to the first one again. (In fewer than
    -- 2^64 calls under the conditions of a call; for the pairs of mutexes that the check of the order
    -- saw, neither destroyed since.)
    pub cycle-reported :
        (n : ℕ) (w : World T) (r : Reach T C n w) (p : ℕ)
        → n < 2 ^ 64
        → Ways (Took T C r) p p
        → (held : ℕ) × In held (inversions w.log)
    cycle-reported n w r p small ways = reported (inversions w.log) quiet
      where
        quiet : inversions w.log ≡ [] → ⊥
        quiet q =
            let i = Reach-Inv T C n w r small in
            let (a, b, f, k, chain) = Ways-Chain w.graph (Took T C r) (i.order q) p p ways in
            let same : a ≡ b = cc (f, k) in i.acyclic q b (rw same at chain)

        reported : (hs : List ℕ) → (hs ≡ [] → ⊥) → (held : ℕ) × In held hs
        reported [] out = absurd (out refl)
        reported (h ∷ hs) out = (h, inl refl)

    -- No inversion is reported without a cyclic order: if one was, then there are mutexes each of
    -- which some thread had in its list when it was about to take the next, up to the first one
    -- again. (In fewer than 2^64 calls under the conditions of a call.)
    pub reported-cycle :
        (n : ℕ) (w : World T) (r : Reach T C n w) (held : ℕ)
        → n < 2 ^ 64
        → In held (inversions w.log)
        → (p : ℕ) × Ways (Nested T C r) p p
    reported-cycle n w r held small m = (Reach-Inv T C n w r small).real held m
