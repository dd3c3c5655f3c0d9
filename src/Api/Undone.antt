-- ===== src/Api/Undone.antt =====
-- A real lock function that fails, and a thread that is renamed while it holds a lock.
use lksmith.Base.{
  ℕ, ◌+◌, ◌^◌, ◌<◌, ◌≡◌, refl, ◌∙◌, ◌⊎◌, Bool, true, List, [], none, some, take, done, fault,
  null_deref,
}
use lksmith.Code.{Code, ok, failed}
use lksmith.Lock.{Text, Lock, Holder, store}
use lksmith.Tree.{TreeLib}
use lksmith.Held.{tls_remove_held, tls_contains_lid}
use lksmith.Held.Laws.{times-tls_remove_held}
use lksmith.Holders.{lk_holder_remove}
use lksmith.Holders.Laws.{Without, lk_holder_remove_lem}
use lksmith.Graph.{IsWf, new_lock, lksmith_find}
use lksmith.Graph.Update.{store_self}
use lksmith.Ignore.{TextLib}
use lksmith.World.{World, Tls, TlsAnswers, get_or_create_tls}
use lksmith.Api.{lksmith_set_thread_name}
use lksmith.Api.Calls.{Known, Known-store, Runs, with_lock, with_tls-Runs}
use lksmith.Api.Enter.{lksmith_prelock-Entered}
use lksmith.Api.Cycle.{uncounted, uncounted_lem, preunlock_lem, postunlock_found}
use lksmith.Api.Locking.{LockAnswers, lksmith_prelock, lksmith_postlock, postlock_failed}
use lksmith.Api.Unlocking.{
  lksmith_preunlock, preunlock_held, lksmith_postunlock, postunlock_removed,
}

module _ (T : TreeLib) (C : TextLib) (t lk ptr : ℕ) where
  postlock_failed_lem :
      (b : TlsAnswers) (memory : Bool) (error : Code) (l : Lock) (tls : Tls) (w : World T)
      (hs : List Holder)
      → Runs T C t tls w
      → Known T lk ptr l w.graph
      → failed error ≡ true
      → lk_holder_remove tls.name l.holders ≡ done (ok, hs)
      → lksmith_postlock T C b memory t ptr error w
        ≡ done (tt, record w { graph = with_lock T w.graph lk (record l { holders = hs }) })
  unfolding lksmith_postlock postlock_failed lksmith_find
  postlock_failed_lem b memory error l tls w hs runs k fails gone =
      with_tls-Runs T C b t _ _ _ w tls runs ∙ (rw (k.found, k.live, fails, postlock_failed, gone))

  -- When the real lock function fails, lksmith_prelock and lksmith_postlock still return, the holder
  -- that the first added is gone again, the graph is well-formed, and the storage of every thread is
  -- what it was. (For the conditions of lksmith_prelock and a name that fits its buffer, with no other
  -- thread in between.)
  pub lock_failed :
      (a : LockAnswers) (b : TlsAnswers) (memory sleeper : Bool) (error : Code) (tls : Tls)
      → (frames : List Text) (l : Lock) (w : World T) → Runs T C t tls w
      → take 15 tls.name ≡ tls.name
      → a.frames ≡ some frames
      → IsWf T w.graph
      → w.graph.color + 1 < 2 ^ 64
      → failed error ≡ true
      → (T.find ptr w.graph.tree ≡ some lk) × (w.graph.heap lk ≡ some l)
        ⊎ (T.find ptr w.graph.tree ≡ none)
          × (w.graph.heap lk ≡ none)
          × (a.lock_memory ≡ some lk)
          × (l ≡ new_lock ptr true sleeper)
      → (w1 w2 : World T) × (lksmith_prelock T C a t ptr sleeper w ≡ done (ok, w1))
        × (lksmith_postlock T C b memory t ptr error w1 ≡ done (tt, w2))
        × (w2.tls ≡ w.tls)
        × (l2 : Lock) × Known T lk ptr l2 w2.graph
        × (l2.holders ≡ l.holders)
  lock_failed a b memory sleeper error tls frames l w runs fits bt wf colors fails lock =
      let (w1, e1, p) =
        lksmith_prelock-Entered T C a t ptr sleeper tls frames lk l w runs bt wf colors lock in
      let gone : lk_holder_remove tls.name p.after.holders ≡ done (ok, l.holders) =
        rw (p.holders, fits)
          (lk_holder_remove_lem [] l.holders (record { name = tls.name; bt_frames = frames })
            tt).0 in
      let l2 : Lock = record p.after { holders = l.holders } in
      (
        w1,
        record w1 { graph = with_lock T w1.graph lk l2 },
        e1,
        postlock_failed_lem b memory error p.after tls w1 l.holders (rw p.tls runs.0, runs.1)
            p.known fails gone,
        p.tls,
        l2,
        Known-store T lk ptr p.after l2 w1.graph p.known refl refl refl,
        refl,
      )

  set_thread_name_lem :
      (a : TlsAnswers) (name : Text) (tls : Tls) (w : World T)
      → Runs T C t tls w
      → lksmith_set_thread_name T C a t name w
        ≡ done (ok, record w { tls = store t (record tls { name = take 15 name }) w.tls })
  unfolding lksmith_set_thread_name get_or_create_tls
  set_thread_name_lem a name tls w runs = rw (lksmith_set_thread_name, get_or_create_tls, runs.0)

  postunlock_fault :
      (d : TlsAnswers) (l : Lock) (tls : Tls) (w : World T) (held : List ℕ)
      → Runs T C t tls w
      → Known T lk ptr l w.graph
      → tls_remove_held tls.held ptr ≡ (ok, held)
      → lk_holder_remove tls.name l.holders ≡ fault null_deref
      → lksmith_postunlock T C d t ptr w ≡ fault null_deref
  unfolding lksmith_postunlock postunlock_removed lksmith_find
  postunlock_fault d l tls w held runs k removed gone =
      with_tls-Runs T C d t _ _ _ w tls runs
      ∙ postunlock_found T C t lk ptr tls w held removed
      ∙ (rw (postunlock_removed, k.found, k.live, gone))

  -- A thread that holds a lock and takes a name that no holder of the lock has: it may unlock, but
  -- after the real unlock function lksmith_postunlock reads through a null pointer.
  pub renamed-fault :
      (a c d : TlsAnswers) (name : Text) (l : Lock) (tls : Tls) (w : World T)
      → Runs T C t tls w
      → Known T lk ptr l w.graph
      → tls_contains_lid tls.held ptr ≡ true
      → Without (take 15 name) l.holders
      → (w1 w2 : World T) × (lksmith_set_thread_name T C a t name w ≡ done (ok, w1))
        × (lksmith_preunlock T C c t ptr w1 ≡ done (ok, w2))
        × (lksmith_postunlock T C d t ptr w2 ≡ fault null_deref)
  renamed-fault a c d name l tls w runs k holds without =
      let tls1 : Tls = record tls { name = take 15 name } in
      let w1 : World T = record w { tls = store t tls1 w.tls } in
      let w2 = preunlock_held T C t l tls1 w1 in
      let s = l.props.sleeper in
      let runs1 = store_self t tls1 w.tls in
      let (graph, stored) = uncounted_lem T C t lk ptr l tls1 w1 s refl runs1 in
      let known : Known T lk ptr l w2.graph = rw graph k in
      let code : (tls_remove_held tls.held ptr).0 ≡ ok =
        (times-tls_remove_held tls.held ptr ptr).0 ∙ (rw holds) in
      let gone =
        (lk_holder_remove_lem l.holders [] (record { name = take 15 name; bt_frames = [] })
          without).1 in
      (
        w1,
        w2,
        set_thread_name_lem a name tls w runs,
        preunlock_lem T C t lk ptr c l tls1 w1 (runs1, runs.1) k holds,
        postunlock_fault d l (uncounted T C t lk ptr tls1 s) w2 (tls_remove_held tls.held ptr).1
            (stored, runs.1) known (λ i. (code i, (tls_remove_held tls.held ptr).1)) gone,
      )
