-- ===== src/System/Linking.antt =====
-- lksmith_prelock puts the mutexes that its thread holds before the one that it takes.
use lksmith.Base.{
  ℕ, ◌+◌, ◌^◌, ◌<◌, ◌≡◌, ◌≢◌, ◌∙◌, ◌⊎◌, refl, sym, inl, inr, Bool, true, false, [], List, none,
  some, In, Ensures, Option-cases, subst, ==_ne,
}
use lksmith.Lock.{Text, Lock, Holder}
use lksmith.Code.{ok, err, enomem}
use lksmith.Tree.{TreeLib}
use lksmith.Holders.{lk_holder_add}
use lksmith.Graph.{Graph, IsWf, new_lock, inserted, lksmith_find, lksmith_insert}
use lksmith.Graph.Insert.{lksmith_insert-IsWf}
use lksmith.Depends.Round.{inversions}
use lksmith.Depends.Order.{process_depends-Checked}
use lksmith.Depends.Link.{quiet_before, Precedes, process_depends-Linked}
use lksmith.Ignore.{TextLib, should_skip_dependency_processing}
use lksmith.World.{World, Tls}
use lksmith.World.Frame.{Holds}
use lksmith.Api.Locking.{
  LockAnswers, holder_create, add_holder, prelock_at, prelock_new, prelock_body, lksmith_prelock,
}
use lksmith.Api.Calls.{Runs, with_tls-Runs}
use lksmith.System.{Unused, Call, prelock, destroy, Reach, start, after}
use lksmith.System.Links.{Pairs, Edge, Edge-store}

new_lock_ptr : (ptr : ℕ) (recursive sleeper : Bool) → (new_lock ptr recursive sleeper).ptr ≡ ptr
unfolding new_lock
new_lock_ptr ptr recursive sleeper = refl

module _ (T : TreeLib) (C : TextLib) where
  -- The thread `t` has the mutex `p` in its list when it takes `ptr`, and the order check is made: no
  -- frame switches it off, the backtrace is there, and memory is.
  pub record Checks (a : LockAnswers) (t p ptr : ℕ) (w : World T) : Type 0 where
    pub tls : Tls
    pub frames : List Text
    pub node : ℕ
    pub runs : Runs T C t tls w
    pub held : In p tls.held
    pub found : T.find p w.graph.tree ≡ some node
    pub other : p ≢ ptr
    pub traced : a.frames ≡ some frames
    pub checked :
        should_skip_dependency_processing C w.ignored_frames w.ignored_patterns frames ≡ false
    pub memory : (lk : ℕ) × (a.lock_memory ≡ some lk)
    pub grow : (j : ℕ) → a.grow j ≡ true

  abbrev pub EdgeIfQuiet {ℓ} : {R : Type ℓ} → ℕ → ℕ → R × World T → Type 0
  EdgeIfQuiet p ptr r = inversions r.1.log ≡ [] → Edge T r.1.graph p ptr

  module _ (grow : ℕ → Bool) (memory : (j : ℕ) → grow j ≡ true) (tls : Tls) (p ptr : ℕ)
      (held : In p tls.held) (holder : Holder) where
    prelock_at-Linked :
        (lk ak : ℕ) (l : Lock) (w : World T)
        → IsWf T w.graph
        → w.graph.color + 1 < 2 ^ 64
        → w.graph.heap lk ≡ some l
        → l.ptr ≡ ptr
        → T.find p w.graph.tree ≡ some ak
        → p ≢ ptr
        → should_skip_dependency_processing C w.ignored_frames w.ignored_patterns holder.bt_frames
          ≡ false
        → Ensures (EdgeIfQuiet p ptr) (prelock_at T C grow tls ptr holder lk w)
    unfolding prelock_at add_holder
    prelock_at-Linked lk ak l w wf small at own found other look =
        let (_, _, g, rs, run, _, _, done) =
          process_depends-Checked T lk ptr grow tls.held w.graph l wf at own small in
        let differ : ak ≢ lk = λ same.
          let (m, e, q) = wf.find-live p ak found in
          let here : w.graph.heap lk ≡ some m = rw same at e in
          let eq : m ≡ l = cc (here, at) in other (sym q ∙ (rw eq own)) in
        let linked = subst (Ensures (λ r. inversions r.1 ≡ [] → Precedes ak lk r.0.heap)) run (
          process_depends-Linked T lk ptr grow tls.held w.graph l wf at own small memory p ak held
            found differ) in
        let (l', at', _) = done.grows.locks lk l at in
        let here : T.find ptr g.tree ≡ some lk =
          rw (done.grows.tree, sym own) (wf.live-find lk l at) in
        rw (look, run, prelock_at, add_holder, at')
          (λ q.
            Edge-store T g lk l' (record l' { holders = lk_holder_add holder l'.holders }) at' refl
              p ptr (ak, lk, rw done.grows.tree found, here, linked (quiet_before w.log rs q).1))

  prelock_body-Linked :
      (a : LockAnswers) (t p ptr : ℕ) (sleeper : Bool) (w : World T)
      → IsWf T w.graph
      → w.graph.color + 1 < 2 ^ 64
      → Unused w.graph.heap a.lock_memory
      → (c : Checks a t p ptr w)
      → Ensures (EdgeIfQuiet p ptr) (prelock_body T C a ptr sleeper c.tls w)
  unfolding prelock_body prelock_new holder_create lksmith_find lksmith_insert inserted
  prelock_body-Linked a t p ptr sleeper w wf small free c =
      elim (Option-cases (T.find ptr w.graph.tree)) [
        | inr (lk, f) ↦
            let (l, at, own) = wf.find-live ptr lk f in
            rw (prelock_body, c.traced, f)
              (prelock_at-Linked a.grow c.grow c.tls p ptr c.held _ lk c.node l w wf small at own
                c.found c.other c.checked)
        | inl f ↦
            let (lk, mem) = c.memory in
            let fresh : w.graph.heap lk ≡ none = rw mem at free in
            let (e0, e1, wf', live, found, _) =
              lksmith_insert-IsWf T w.graph ptr lk true sleeper wf f fresh in
            let g : Graph T = (lksmith_insert T (some lk) ptr true sleeper w.graph).2 in
            let result : lksmith_insert T (some lk) ptr true sleeper w.graph ≡ (ok, some lk, g) =
              λ j. (e0 j, e1 j, g) in
            let color : g.color ≡ w.graph.color = rw (T.insert-find ptr lk w.graph.tree, f) in
            let known : T.find p g.tree ≡ some c.node =
              found p ∙ (rw (==_ne ptr p (λ e. c.other (sym e))) c.found) in
            rw (prelock_body, c.traced, f, mem, result)
              (prelock_at-Linked a.grow c.grow c.tls p ptr c.held _ lk c.node
                (new_lock ptr true sleeper) (record w { graph = g }) wf' (rw color small) live
                (new_lock_ptr ptr true sleeper) known c.other c.checked)
      ]

  -- If the order check sees the held mutex, and no inversion was reported so far, the mutex is
  -- before the one that was taken.
  pub prelock-Linked :
      (a : LockAnswers) (t p ptr : ℕ) (sleeper : Bool) (w : World T)
      → IsWf T w.graph
      → w.graph.color + 1 < 2 ^ 64
      → Unused w.graph.heap a.lock_memory
      → Checks a t p ptr w
      → Ensures (EdgeIfQuiet p ptr) (lksmith_prelock T C a t ptr sleeper w)
  unfolding lksmith_prelock
  prelock-Linked a t p ptr sleeper w wf small free c =
      rw
        (with_tls-Runs T C a.tls t (err enomem) ok (λ tls w. prelock_body T C a ptr sleeper tls w) w
          c.tls c.runs)
        (prelock_body-Linked a t p ptr sleeper w wf small free c)

  -- The pairs after one more call. The check of the order saw that the first was held when the second
  -- was taken, and neither was destroyed since; or the first was held when the second was taken.
  abbrev pub Ordered : Call → World T → Pairs → Pairs
  Ordered (prelock a t ptr sleeper) w O = record {
    must = λ p q. O.must p q ⊎ (q ≡ ptr) × Checks a t p ptr w;
    may = λ p q. O.may p q ⊎ (q ≡ ptr) × Holds T C t p w;
  }
  Ordered (destroy a t ptr) w O = record O { must = λ p q. O.must p q × (p ≢ ptr) × (q ≢ ptr) }
  Ordered _ w O = O

  abbrev pub no_pairs : Pairs
  no_pairs = record { must = λ p q. ⊥; may = λ p q. ⊥ }

  abbrev pub pairs : {n : ℕ} {w : World T} → Reach T C n w → Pairs
  pairs start = no_pairs
  pairs (after {w = u} c r allowed run) = Ordered c u (pairs r)

  -- In a run of calls, the check of the order saw that `p` was held when `q` was taken, and neither was
  -- destroyed since.
  abbrev pub Took : {n : ℕ} {w : World T} → Reach T C n w → ℕ → ℕ → Type 0
  Took r = (pairs r).must

  -- In a run of calls, a thread had `p` in its list when it was about to take `q`.
  abbrev pub Nested : {n : ℕ} {w : World T} → Reach T C n w → ℕ → ℕ → Type 0
  Nested r = (pairs r).may
