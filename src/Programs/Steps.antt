-- ===== src/Programs/Steps.antt =====
-- What a thread that holds nothing else sees of the calls on one mutex: each returns 0, and nothing is
-- logged.
use lksmith.Base.{
  ℕ, suc, ◌+◌, ◌^◌, ◌<◌, ◌≤◌, ◌≡◌, refl, sym, ◌∙◌, ap, inl, inr, true, List, [], ◌∷◌, ◌++◌, some,
  arith, done, take, Ensures, subst, Bool-cases, append-nil, ltb, if◌then◌else◌,
}
use lksmith.Code.{ok}
use lksmith.Lock.{Text, Lock, Holder, store}
use lksmith.Tree.{TreeLib}
use lksmith.Held.{tls_append_held}
use lksmith.Held.Laws.{tls_remove_held-append}
use lksmith.Holders.{lk_holder_remove}
use lksmith.Holders.Laws.{lk_holder_remove_lem}
use lksmith.Graph.{lksmith_find}
use lksmith.Graph.Update.{store_self}
use lksmith.Depends.{lksmith_prelock_process_depends, depend_all}
use lksmith.Ignore.{TextLib, should_skip_dependency_processing}
use lksmith.Report.{Report}
use lksmith.Api.Unlocking.{lksmith_preunlock, preunlock_held}
use lksmith.World.{World, Tls, TlsAnswers}
use lksmith.Api.Calls.{Known, Known-store, Runs, with_tls-Runs, with_lock}
use lksmith.Api.Enter.{lksmith_prelock-Entered}
use lksmith.Api.Taken.{taken, spins_calm, postlock-Stands}
use lksmith.Api.Cycle.{preunlock_lem, postunlock_lem}
use lksmith.Api.Locking.{
  LockAnswers, add_holder, prelock_at, prelock_body, holder_create, lksmith_prelock, postlock_taken,
  lksmith_postlock, max_nlock,
}
use lksmith.Handler.{Real, TakeAnswers, GiveAnswers, take_lock, give_lock}

module _ (T : TreeLib) (C : TextLib) where
  preunlock_held_sleeper :
      (t : ℕ) (l : Lock) (tls : Tls) (w : World T)
      → l.props.sleeper ≡ true
      → preunlock_held T C t l tls w ≡ w
  unfolding preunlock_held
  preunlock_held_sleeper t l tls w s = rw (preunlock_held, s) refl

  -- The log stays, and the colour counter goes up by at most one.
  abbrev Calm : World T → World T → Type 0
  Calm w u = (u.log ≡ w.log) × (u.graph.color ≤ w.graph.color + 1)

  prelock_at-Calm :
      (grow : ℕ → _) (tls : Tls) (ptr : ℕ) (holder : Holder) (lk : ℕ) (l : Lock) (w : World T)
      → tls.held ≡ []
      → w.graph.heap lk ≡ some l
      → Ensures (λ r. Calm w r.1) (prelock_at T C grow tls ptr holder lk w)
  unfolding prelock_at add_holder lksmith_prelock_process_depends depend_all
  prelock_at-Calm grow tls ptr holder lk l w none_held at =
      elim (Bool-cases (
        should_skip_dependency_processing C w.ignored_frames w.ignored_patterns holder.bt_frames)) [
          | inl skip ↦ rw (prelock_at, skip, add_holder, at) (refl, omega arith)
          | inr look ↦
              rw
                (
                  prelock_at, look, none_held, lksmith_prelock_process_depends, depend_all,
                  add_holder, at,
                )
                (append-nil w.log, omega arith)
        ]

  prelock-Calm :
      (a : LockAnswers) (t ptr lk : ℕ) (l : Lock) (tls : Tls) (frames : List Text) (w : World T)
      → Runs T C t tls w
      → a.frames ≡ some frames
      → tls.held ≡ []
      → Known T lk ptr l w.graph
      → Ensures (λ r. Calm w r.1) (lksmith_prelock T C a t ptr true w)
  unfolding lksmith_prelock prelock_body holder_create lksmith_find
  prelock-Calm a t ptr lk l tls frames w runs bt none_held k =
      rw
        (
          with_tls-Runs T C a.tls t _ _ (λ tls w. prelock_body T C a ptr true tls w) w tls runs,
          prelock_body,
          bt,
          k.found,
        )
        (prelock_at-Calm a.grow tls ptr _ lk l w none_held k.live)

  module _ (t lk ptr : ℕ) (tls : Tls) (log : List Report) where
    -- The thread has nothing, and nobody has the mutex; `n` more order checks do not wrap the colour
    -- counter.
    pub record Free (n : ℕ) (w : World T) : Type 0 where
      pub lock : Lock
      pub storage : w.tls t ≡ some tls
      pub known : Known T lk ptr lock w.graph
      pub nobody : lock.holders ≡ []
      pub sleeper : lock.props.sleeper ≡ true
      pub colors : w.graph.color + n < 2 ^ 64
      pub quiet : w.log ≡ log

    -- The thread has the mutex, and nobody else.
    pub record Locked (n : ℕ) (w : World T) : Type 0 where
      pub lock : Lock
      pub holder : Holder
      pub storage : w.tls t ≡ some (taken T C t lk ptr tls true)
      pub known : Known T lk ptr lock w.graph
      pub mine : lock.holders ≡ holder ∷ []
      pub name : holder.name ≡ tls.name
      pub sleeper : lock.props.sleeper ≡ true
      pub colors : w.graph.color + n < 2 ^ 64
      pub quiet : w.log ≡ log

    module _ (on : tls.intercept ≡ true) (empty : tls.held ≡ []) (spins : tls.num_spins ≡ 0)
        (fits : take 15 tls.name ≡ tls.name) where
      taken_calm :
          (l : Lock) (w : World T)
          → l.props.sleeper ≡ true
          → let p = l.props in
            let l' : Lock = record l {
              props = record p { nlock = if ltb p.nlock max_nlock then p.nlock + 1 else p.nlock };
            } in
            postlock_taken T C true t ptr lk l tls w ≡ record w {
              graph = with_lock T w.graph lk l';
              tls = store t (record tls { held = tls.held ++ ptr ∷ [] }) w.tls;
            }
      unfolding postlock_taken tls_append_held
      taken_calm l w s =
          let p = l.props in
          let l' : Lock = record l {
            props = record p { nlock = if ltb p.nlock max_nlock then p.nlock + 1 else p.nlock };
          } in
          spins_calm T C t lk ptr l' (record tls { held = tls.held ++ ptr ∷ [] })
            (record w { graph = with_lock T w.graph lk l' }) s (rw spins refl)

      postlock-Calm :
          (a : TlsAnswers) (l : Lock) (w : World T)
          → Runs T C t tls w
          → Known T lk ptr l w.graph
          → l.props.sleeper ≡ true
          → Ensures
              (λ r. (r.1.log ≡ w.log) × (r.1.graph.color ≡ w.graph.color))
              (lksmith_postlock T C a true t ptr ok w)
      unfolding lksmith_postlock lksmith_find
      postlock-Calm a l w runs k s =
          rw (with_tls-Runs T C a t _ _ _ w tls runs, k.found, k.live)
            (ap (λ u. u.log) (taken_calm l w s), ap (λ u. u.graph.color) (taken_calm l w s))

      pub take_lock-Locked :
          (fn : Real) (a : TakeAnswers T C) (frames : List Text) (n : ℕ) (w : World T)
          → a.pre.frames ≡ some frames
          → a.held_memory ≡ true
          → a.real ≡ ok
          → ((u : World T) → a.meanwhile u ≡ u)
          → Free (suc n) w
          → (w' : World T) × (take_lock T C fn a t ptr true w ≡ done (ok, w', fn ∷ []))
            × Locked n w'
      unfolding take_lock
      take_lock-Locked fn a frames n w bt memory real alone f =
          let few : w.graph.color + 1 < 2 ^ 64 = let c = f.colors in omega arith in
          let (w1, e1, p) =
            lksmith_prelock-Entered T C a.pre t ptr true tls frames lk f.lock w (f.storage, on) bt
              f.known.wf few (inl (f.known.found, f.known.live)) in
          let (log1, color1) =
            subst (Ensures (λ r. Calm w r.1)) e1
              (prelock-Calm a.pre t ptr lk f.lock tls frames w (f.storage, on) bt empty f.known) in
          let runs1 : Runs T C t tls w1 = (rw p.tls f.storage, on) in
          let (w2, e2, q) = postlock-Stands T C t lk ptr a.post p.after tls w1 runs1 p.known in
          let asleep : p.after.props.sleeper ≡ true = rw p.props f.sleeper in
          let (log2, color2) =
            subst (Ensures (λ r. (r.1.log ≡ w1.log) × (r.1.graph.color ≡ w1.graph.color))) e2
              (postlock-Calm a.post p.after w1 runs1 p.known asleep) in
          (
            w2,
            rw e1 (rw (alone w1, memory, real, e2) refl),
            record {
              lock = q.after;
              holder = record { name = take 15 tls.name; bt_frames = frames };
              storage = rw asleep at q.storage;
              known = q.known;
              mine = q.holders ∙ p.holders ∙ (rw f.nobody refl);
              name = fits;
              sleeper = q.sleeper ∙ asleep;
              colors = let c = f.colors in omega arith;
              quiet = log2 ∙ log1 ∙ f.quiet;
            },
          )

      pub give_lock-Free :
          (fn : Real) (a : GiveAnswers T C) (n : ℕ) (w : World T)
          → a.real ≡ ok
          → ((u : World T) → a.meanwhile u ≡ u)
          → Locked n w
          → (w' : World T) × (give_lock T C fn a t ptr w ≡ done (ok, w', fn ∷ [])) × Free n w'
      unfolding give_lock tls_append_held
      give_lock-Free fn a n w real alone k =
          let had = taken T C t lk ptr tls true in
          let (_, contains, removes) = tls_remove_held-append tls.held ptr in
          let pre : lksmith_preunlock T C a.pre t ptr w ≡ done (ok, w) =
            preunlock_lem T C t lk ptr a.pre k.lock had w (k.storage, on) k.known contains
            ∙ (rw (preunlock_held_sleeper t k.lock had w k.sleeper) refl) in
          let gone : lk_holder_remove tls.name k.lock.holders ≡ done (ok, []) =
            rw (k.mine, sym k.name) (lk_holder_remove_lem [] [] k.holder tt).0 in
          let post =
            postunlock_lem T C t lk ptr a.post k.lock had w tls.held [] (k.storage, on) k.known
              removes gone in
          (
            record w {
              graph = with_lock T w.graph lk (record k.lock { holders = [] });
              tls = store t tls w.tls;
            },
            rw pre (rw (alone w, real, post) refl),
            record {
              lock = record k.lock { holders = [] };
              storage = store_self t tls w.tls;
              known =
                  Known-store T lk ptr k.lock (record k.lock { holders = [] }) w.graph k.known refl
                    refl refl;
              nobody = refl;
              sleeper = k.sleeper;
              colors = k.colors;
              quiet = k.quiet;
            },
          )
