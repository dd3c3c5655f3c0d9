-- ===== src/System/Inserts.antt =====
-- The calls that add and remove locks keep the invariant.
use lksmith.Base.{
  ℕ, ◌≡◌, refl, sym, ◌∙◌, ◌≢◌, ◌⊎◌, inl, inr, Bool, List, [], ◌∷◌, Option, none, some, Ensures,
  Option-cases, if_either, ℕ_discrete,
}
use lksmith.Code.{Code, Errno, ok, err, neg, minus_one, enomem, ebusy}
use lksmith.Lock.{Lock, Holder}
use lksmith.Tree.{TreeLib}
use lksmith.Held.{tls_contains_lid}
use lksmith.Graph.{Graph, new_lock, inserted, lksmith_insert, lksmith_find}
use lksmith.Graph.Insert.{lksmith_insert-IsWf, lksmith_insert-err}
use lksmith.Graph.Forget.{lksmith_forget-IsWf, lksmith_forget_from}
use lksmith.Ignore.{TextLib}
use lksmith.Report.{init_failed, destroy_held, destroy_in_use}
use lksmith.World.{World, Tls, TlsAnswers}
use lksmith.World.Frame.{Fresh, Same, Same-refl, log_report-Same}
use lksmith.Api.{init_result, lksmith_optional_init, destroy_at, lksmith_destroy}
use lksmith.System.{Unused}
use lksmith.System.Invariant.{Fewer, IsAcyclic-Fewer, Inv, Inv-Same, Inv-fewer}
use lksmith.System.Sources.{Edge-insert_inv, Edge-forget_inv}
use lksmith.System.Links.{Pairs, Edge-insert, Edge-forget}
use lksmith.System.Opening.{with_tls-Ensures}

module _ (T : TreeLib) (C : TextLib) (O : Pairs) (n : ℕ) where
  -- lksmith_insert adds a lock, or fails and changes nothing.
  pub record Added (ptr : ℕ) (w : World T) (r : Code × Option ℕ × Graph T) : Type 0 where
    pub lk : ℕ
    pub lock : Lock
    pub graph : Graph T
    pub result : r ≡ (ok, some lk, graph)
    pub inv : Inv T O n (record w { graph = graph })
    pub live : graph.heap lk ≡ some lock
    pub own : lock.ptr ≡ ptr

  pub insert_cases :
      (memory : Option ℕ) (ptr : ℕ) (recursive sleeper : Bool) (w : World T)
      → Inv T O n w
      → Unused w.graph.heap memory
      → ((e : Errno) × (lksmith_insert T memory ptr recursive sleeper w.graph
            ≡ (err e, none, w.graph)))
        ⊎ Added ptr w (lksmith_insert T memory ptr recursive sleeper w.graph)
  unfolding lksmith_insert inserted new_lock
  insert_cases none ptr recursive sleeper w i free = inl (enomem, refl)
  insert_cases (some a) ptr recursive sleeper w i free =
      elim (Option-cases (T.find ptr w.graph.tree)) [
        | inr (b, e) ↦ inl (_, (lksmith_insert-err T w.graph ptr a b recursive sleeper e).0)
        | inl e ↦
            let g = (lksmith_insert T (some a) ptr recursive sleeper w.graph).2 in
            let (e0, e1, wf, live, found, others) =
              lksmith_insert-IsWf T w.graph ptr a recursive sleeper i.wf e free in
            let color : g.color ≡ w.graph.color = rw (T.insert-find ptr a w.graph.tree, e) in
            inr (record {
              lk = a;
              lock = new_lock ptr recursive sleeper;
              graph = g;
              result = λ j. (e0 j, e1 j, g);
              inv = record {
                wf = wf;
                colors = rw color i.colors;
                acyclic =
                    λ q. IsAcyclic-Fewer w.graph.heap g.heap (fewer g live others) (i.acyclic q);
                order = λ q x y o.
                    Edge-insert T w.graph g ptr a e free found others x y (i.order q x y o);
                from = λ x y o. i.from x y (
                    Edge-insert_inv T w.graph g ptr a (new_lock ptr recursive sleeper) i.wf free
                      found live (λ b m. m) others x y o);
                real = i.real;
                conds = i.conds;
                counts = i.counts;
              };
              live = live;
              own = refl;
            })
      ]
    where
      fewer :
          (g : Graph T)
          → g.heap a ≡ some (new_lock ptr recursive sleeper)
          → ((x : ℕ) → a ≢ x → g.heap x ≡ w.graph.heap x)
          → Fewer w.graph.heap g.heap
      fewer g live others x l b e k = elim (ℕ_discrete a x) [
        | yes p ↦
            let same : new_lock ptr recursive sleeper ≡ l = cc (live, e, p) in
            absurd (rw (← same) at k)
        | no ne ↦ (l, sym (others x ne) ∙ e, k)
      ]

  init_result-Same : (ptr : ℕ) (code : Code) (w : World T) → Same T w (init_result T C ptr code w).1
  unfolding init_result
  init_result-Same ptr (err e) w = log_report-Same T C e (init_failed ptr) w refl
  init_result-Same ptr ok w = Same-refl T w
  init_result-Same ptr (neg e) w = Same-refl T w
  init_result-Same ptr minus_one w = Same-refl T w

  pub optional_init-Inv :
      (a : TlsAnswers) (memory : Option ℕ) (t ptr : ℕ) (recursive sleeper : Bool) (w : World T)
      → Fresh T C t w
      → Inv T O n w
      → Unused w.graph.heap memory
      → Ensures (λ r. Inv T O n r.1) (lksmith_optional_init T C a memory t ptr recursive sleeper w)
  unfolding lksmith_optional_init
  optional_init-Inv a memory t ptr recursive sleeper w fresh i free =
      with_tls-Ensures T C (λ r. Inv T O n r.1) a t (err enomem) ok _ w fresh
        (λ r u s. Inv-Same T O n w u i s)
        (λ tls u s.
          let j = Inv-Same T O n w u i s in
          elim (insert_cases memory ptr recursive sleeper u j (rw s.graph free)) [
            | inl (e, r) ↦ rw r (Inv-Same T O n u _ j (init_result-Same ptr (err e) u))
            | inr p ↦ rw p.result (
                Inv-Same T O n (record u { graph = p.graph }) _ p.inv
                  (init_result-Same ptr ok (record u { graph = p.graph })))
          ])

  -- The pairs that do not name a mutex are still in the order.
  abbrev Without : ℕ → Pairs
  Without ptr = record O { must = λ p q. O.must p q × (p ≢ ptr) × (q ≢ ptr) }

  destroy_at-Inv :
      (tls : Tls) (ptr lk : ℕ) (l : Lock) (w : World T)
      → Inv T O n w
      → w.graph.heap lk ≡ some l
      → l.ptr ≡ ptr
      → Ensures (λ r. Inv T (Without ptr) n r.1) (destroy_at T C tls ptr lk l w)
  unfolding destroy_at
  destroy_at-Inv tls ptr lk l w i at own = by_holders l.holders refl
    where
      fewer : (u : World T) → Inv T O n u → Inv T (Without ptr) n u
      fewer u j = Inv-fewer T O (Without ptr).must n u (λ p q o. o.0) j

      by_holders :
          (hs : List Holder)
          → l.holders ≡ hs
          → Ensures (λ r. Inv T (Without ptr) n r.1) (destroy_at T C tls ptr lk l w)
      by_holders (h ∷ hs) e =
          rw (destroy_at, e)
            (if_either (Inv T (Without ptr) n) (tls_contains_lid tls.held ptr) _ _
              (Inv-Same T (Without ptr) n w _ (fewer w i)
                (log_report-Same T C ebusy (destroy_held ptr) w refl))
              (Inv-Same T (Without ptr) n w _ (fewer w i)
                (log_report-Same T C ebusy (destroy_in_use ptr) w refl)))
      by_holders [] e =
          let (g, run, wf, _, gone, stays) = lksmith_forget-IsWf T w.graph ptr lk l i.wf at own in
          let (color, from) = lksmith_forget_from T w.graph ptr lk l i.wf at own g run in
          rw (destroy_at, e, run)
            (record {
              wf = wf;
              colors = rw color i.colors;
              acyclic = λ q.
                  IsAcyclic-Fewer w.graph.heap g.heap
                    (λ x m b f k. let (m0, f0, k0) = from x m f in (m0, f0, k0 b k)) (i.acyclic q);
              order = λ q x y (o, nx, ny).
                  Edge-forget T w.graph g ptr lk l i.wf at own wf stays x y (i.order q x y o) nx ny;
              from = λ x y o.
                  i.from x y (Edge-forget_inv T w.graph g lk i.wf wf gone stays from x y o);
              real = i.real;
              conds = i.conds;
              counts = i.counts;
            })

  pub destroy-Inv :
      (a : TlsAnswers) (t ptr : ℕ) (w : World T)
      → Fresh T C t w
      → Inv T O n w
      → Ensures (λ r. Inv T (Without ptr) n r.1) (lksmith_destroy T C a t ptr w)
  unfolding lksmith_destroy lksmith_find
  destroy-Inv a t ptr w fresh i =
      with_tls-Ensures T C (λ r. Inv T (Without ptr) n r.1) a t (err enomem) ok _ w fresh
        (λ r u s. fewer u (Inv-Same T O n w u i s))
        (λ tls u s.
          let j = Inv-Same T O n w u i s in
          elim (Option-cases (T.find ptr u.graph.tree)) [
            | inl e ↦ rw e (fewer u j)
            | inr (lk, e) ↦
                let (l, at, own) = j.wf.find-live ptr lk e in
                rw (e, at) (destroy_at-Inv tls ptr lk l u j at own)
          ])
    where
      fewer : (u : World T) → Inv T O n u → Inv T (Without ptr) n u
      fewer u j = Inv-fewer T O (Without ptr).must n u (λ p q o. o.0) j
