-- ===== src/Api/Enter.antt =====
-- lksmith_prelock, when there is memory: it returns 0 and adds the holder of the calling thread.
use lksmith.Base.{
  ℕ, ◌+◌, ◌^◌, ◌<◌, ◌≡◌, refl, ◌∙◌, ◌⊎◌, inl, inr, Bool, true, List, ◌∷◌, ◌++◌, none, some, take,
  done, Bool-cases, ==_refl,
}
use lksmith.Code.{ok}
use lksmith.Lock.{Text, Lock, Holder}
use lksmith.Tree.{TreeLib}
use lksmith.Holders.{lk_holder_add}
use lksmith.Graph.{Graph, IsWf, new_lock, inserted, lksmith_find, lksmith_insert}
use lksmith.Graph.Insert.{lksmith_insert-IsWf}
use lksmith.Depends.Order.{process_depends_lem}
use lksmith.Ignore.{TextLib, should_skip_dependency_processing}
use lksmith.World.{World, Tls}
use lksmith.Api.Calls.{Known, Known-store, Known-ptr, Runs, with_lock, with_tls-Runs}
use lksmith.Api.Locking.{
  LockAnswers, holder_create, add_holder, prelock_at, prelock_new, prelock_body, lksmith_prelock,
}

module _ (T : TreeLib) (C : TextLib) where
  insert-color :
      (lk ptr : ℕ) (sleeper : Bool) (g : Graph T)
      → T.find ptr g.tree ≡ none
      → (lksmith_insert T (some lk) ptr true sleeper g).2.color ≡ g.color
  unfolding lksmith_insert inserted
  insert-color lk ptr sleeper g unknown = rw (T.insert-find ptr lk g.tree, unknown)

  -- What lksmith_prelock leaves of a lock that had the properties and holders of `l`.
  pub record Entered (lk ptr : ℕ) (l : Lock) (holder : Holder) (w w' : World T) : Type 0 where
    pub after : Lock
    pub known : Known T lk ptr after w'.graph
    pub holders : after.holders ≡ holder ∷ l.holders
    pub props : after.props ≡ l.props
    pub tls : w'.tls ≡ w.tls

  add_holder_lem :
      (lk ptr : ℕ) (l0 l : Lock) (holder : Holder) (w0 w : World T)
      → Known T lk ptr l w.graph
      → l.holders ≡ l0.holders
      → l.props ≡ l0.props
      → w.tls ≡ w0.tls
      → (w' : World T) × (add_holder T C lk holder w ≡ done (ok, w'))
        × Entered lk ptr l0 holder w0 w'
  unfolding add_holder lk_holder_add
  add_holder_lem lk ptr l0 l holder w0 w k hs ps ts =
      let l' : Lock = record l { holders = holder ∷ l.holders } in
      (
        record w { graph = with_lock T w.graph lk l' },
        rw (k.live, add_holder),
        record {
          after = l';
          known = Known-store T lk ptr l l' w.graph k refl refl refl;
          holders = rw hs;
          props = ps;
          tls = ts;
        },
      )

  prelock_at_lem :
      (grow : ℕ → Bool) (tls : Tls) (lk ptr : ℕ) (l : Lock) (holder : Holder) (w0 w : World T)
      → Known T lk ptr l w.graph
      → w.graph.color + 1 < 2 ^ 64
      → w.tls ≡ w0.tls
      → (w' : World T) × (prelock_at T C grow tls ptr holder lk w ≡ done (ok, w'))
        × Entered lk ptr l holder w0 w'
  unfolding prelock_at
  prelock_at_lem grow tls lk ptr l holder w0 w k small ts =
      elim (Bool-cases (
        should_skip_dependency_processing C w.ignored_frames w.ignored_patterns holder.bt_frames)) [
          | inl skip ↦ rw skip (add_holder_lem lk ptr l l holder w0 w k refl refl ts)
          | inr look ↦
              let (g', rs, e, wf, tree, _, _, locks) =
                process_depends_lem T lk ptr grow tls.held w.graph l k.wf k.live
                  (Known-ptr T lk ptr l w.graph k) small in
              let (l', live, x) = locks lk l k.live in
              rw (look, e)
                (add_holder_lem lk ptr l l' holder w0 (record w { graph = g'; log = w.log ++ rs })
                  (record { wf = wf; found = rw tree k.found; live = live }) x.holders x.props ts)
        ]

  body_known :
      (a : LockAnswers) (ptr : ℕ) (sleeper : Bool) (tls : Tls) (frames : List Text) (lk : ℕ)
      (w : World T)
      → a.frames ≡ some frames
      → T.find ptr w.graph.tree ≡ some lk
      → prelock_body T C a ptr sleeper tls w
        ≡ prelock_at T C a.grow tls ptr
            (record { name = take 15 tls.name; bt_frames = frames })
            lk
            w
  unfolding prelock_body holder_create lksmith_find
  body_known a ptr sleeper tls frames lk w bt found = rw (prelock_body, bt, found)

  body_new :
      (a : LockAnswers) (ptr : ℕ) (sleeper : Bool) (tls : Tls) (frames : List Text) (lk : ℕ)
      → (g : Graph T) (w : World T) → a.frames ≡ some frames
      → a.lock_memory ≡ some lk
      → T.find ptr w.graph.tree ≡ none
      → lksmith_insert T (some lk) ptr true sleeper w.graph ≡ (ok, some lk, g)
      → prelock_body T C a ptr sleeper tls w
        ≡ prelock_at T C a.grow tls ptr
            (record { name = take 15 tls.name; bt_frames = frames })
            lk
            (record w { graph = g })
  unfolding prelock_body prelock_new holder_create lksmith_find
  body_new a ptr sleeper tls frames lk g w bt memory unknown e =
      rw (prelock_body, bt, unknown, memory, e)

  -- lksmith_prelock returns 0 and keeps the graph well-formed; the lock then has the same properties
  -- and one more holder, with the name of the thread and the backtrace; the storage of all threads is
  -- unchanged. (For a thread with storage whose calls are intercepted, a well-formed graph, a colour
  -- counter that does not wrap, a backtrace, and a known lock or memory for an unknown one, which
  -- starts as lksmith_insert fills it.)
  pub lksmith_prelock-Entered :
      (a : LockAnswers) (t ptr : ℕ) (sleeper : Bool) (tls : Tls) (frames : List Text) (lk : ℕ)
      (l : Lock)
      → (w : World T) → Runs T C t tls w
      → a.frames ≡ some frames
      → IsWf T w.graph
      → w.graph.color + 1 < 2 ^ 64
      → (T.find ptr w.graph.tree ≡ some lk) × (w.graph.heap lk ≡ some l)
        ⊎ (T.find ptr w.graph.tree ≡ none)
          × (w.graph.heap lk ≡ none)
          × (a.lock_memory ≡ some lk)
          × (l ≡ new_lock ptr true sleeper)
      → (w' : World T) × (lksmith_prelock T C a t ptr sleeper w ≡ done (ok, w'))
        × Entered lk ptr l (record { name = take 15 tls.name; bt_frames = frames }) w w'
  unfolding lksmith_prelock
  lksmith_prelock-Entered a t ptr sleeper tls frames lk l w runs bt wf small (inl (found, live)) =
      rw
        (
          with_tls-Runs T C a.tls t _ _ (λ tls w. prelock_body T C a ptr sleeper tls w) w tls runs,
          body_known a ptr sleeper tls frames lk w bt found,
        )
        (prelock_at_lem a.grow tls lk ptr l _ w w (record { wf = wf; found = found; live = live })
          small refl)
  lksmith_prelock-Entered a t ptr sleeper tls frames lk l w runs bt wf small
        (inr (unknown, free, memory, new)) =
      let g = (lksmith_insert T (some lk) ptr true sleeper w.graph).2 in
      let (e0, e1, wf', live, found, _) =
        lksmith_insert-IsWf T w.graph ptr lk true sleeper wf unknown free in
      let e : lksmith_insert T (some lk) ptr true sleeper w.graph ≡ (ok, some lk, g) =
        λ i. (e0 i, e1 i, g) in
      rw
        (
          with_tls-Runs T C a.tls t _ _ (λ tls w. prelock_body T C a ptr sleeper tls w) w tls runs,
          body_new a ptr sleeper tls frames lk g w bt memory unknown e,
          new,
        )
        (prelock_at_lem a.grow tls lk ptr (new_lock ptr true sleeper) _ w (record w { graph = g })
          (record { wf = wf'; found = found ptr ∙ (rw (==_refl ptr)); live = live })
          (rw (insert-color lk ptr sleeper w.graph unknown) small) refl)
