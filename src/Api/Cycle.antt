-- ===== src/Api/Cycle.antt =====
-- Taking a lock and giving it back, through the four functions around the real ones.
use lksmith.Base.{
  ℕ, ◌+◌, ◌-◌, ◌%◌, ◌^◌, ◌<◌, ◌≡◌, refl, ◌∙◌, ◌⊎◌, Bool, true, false, List, [], ◌∷◌, some, none,
  take, done, arith, not, ap, if◌then◌else◌,
}
use lksmith.Code.{ok, eio, failed}
use lksmith.Report.{not_in_held_list}
use lksmith.Lock.{Text, Lock, Holder, store}
use lksmith.Tree.{TreeLib}
use lksmith.Held.{tls_append_held, tls_remove_held, tls_contains_lid}
use lksmith.Held.Laws.{tls_remove_held-append}
use lksmith.Holders.{lk_holder_remove}
use lksmith.Holders.Laws.{lk_holder_remove_lem}
use lksmith.Graph.{IsWf, new_lock, lksmith_find}
use lksmith.Graph.Update.{store_self}
use lksmith.Ignore.{TextLib}
use lksmith.World.{World, Tls, TlsAnswers, log_report}
use lksmith.Api.Calls.{Known, Known-store, Runs, with_lock, with_tls-Runs}
use lksmith.Api.Enter.{lksmith_prelock-Entered}
use lksmith.Api.Taken.{taken, postlock-Stands}
use lksmith.Api.Locking.{LockAnswers, lksmith_prelock, lksmith_postlock}
use lksmith.Api.Unlocking.{
  lksmith_preunlock, preunlock_body, preunlock_held, lksmith_postunlock, postunlock_body,
  postunlock_removed,
}

module _ (T : TreeLib) (C : TextLib) (t lk ptr : ℕ) where
  abbrev pub uncounted : Tls → Bool → Tls
  uncounted tls sleeper = record tls {
    num_spins = if not sleeper then (tls.num_spins + 2 ^ 63 - 1) % 2 ^ 63 else tls.num_spins;
  }

  pub uncounted_lem :
      (l : Lock) (tls : Tls) (w : World T) (b : Bool)
      → l.props.sleeper ≡ b
      → w.tls t ≡ some tls
      → ((preunlock_held T C t l tls w).graph ≡ w.graph)
        × ((preunlock_held T C t l tls w).tls t ≡ some (uncounted tls b))
  unfolding preunlock_held
  uncounted_lem l tls w true s e = rw (preunlock_held, s) (refl, e)
  uncounted_lem l tls w false s e =
      rw (preunlock_held, s) (refl, store_self t (uncounted tls false) w.tls)

  pub preunlock_lem :
      (a : TlsAnswers) (l : Lock) (tls : Tls) (w : World T)
      → Runs T C t tls w
      → Known T lk ptr l w.graph
      → tls_contains_lid tls.held ptr ≡ true
      → lksmith_preunlock T C a t ptr w ≡ done (ok, preunlock_held T C t l tls w)
  unfolding lksmith_preunlock preunlock_body lksmith_find
  preunlock_lem a l tls w runs k holds =
      with_tls-Runs T C a t _ _ _ w tls runs ∙ (rw (preunlock_body, k.found, k.live, holds))

  pub postunlock_found :
      (tls : Tls) (w : World T) (held : List ℕ)
      → tls_remove_held tls.held ptr ≡ (ok, held)
      → let tls' : Tls = record tls { held = held } in
        postunlock_body T C t ptr tls w
        ≡ postunlock_removed T C ptr tls' (record w { tls = store t tls' w.tls })
  unfolding postunlock_body
  postunlock_found tls w held removed =
      ap
        (λ r.
          let tls' : Tls = record tls { held = r.1 } in
          if failed r.0
          then done (tt, log_report T C eio (not_in_held_list ptr) w)
          else postunlock_removed T C ptr tls' (record w { tls = store t tls' w.tls }))
        removed

  pub postunlock_lem :
      (a : TlsAnswers) (l : Lock) (tls : Tls) (w : World T) (held : List ℕ) (hs : List Holder)
      → Runs T C t tls w
      → Known T lk ptr l w.graph
      → tls_remove_held tls.held ptr ≡ (ok, held)
      → lk_holder_remove tls.name l.holders ≡ done (ok, hs)
      → lksmith_postunlock T C a t ptr w
        ≡ done (
          tt,
          record w {
            graph = with_lock T w.graph lk (record l { holders = hs });
            tls = store t (record tls { held = held }) w.tls;
          },
        )
  unfolding lksmith_postunlock postunlock_removed lksmith_find
  postunlock_lem a l tls w held hs runs k removed holder =
      with_tls-Runs T C a t _ _ _ w tls runs
      ∙ postunlock_found tls w held removed
      ∙ (rw (postunlock_removed, k.found, k.live, holder))

  spins_back : (n : ℕ) → n < 2 ^ 63 → ((n + 1) % 2 ^ 63 + 2 ^ 63 - 1) % 2 ^ 63 ≡ n
  spins_back n small = omega arith

  uncounted-taken :
      (tls : Tls) (b : Bool)
      → tls.num_spins < 2 ^ 63
      → record (uncounted (taken T C t lk ptr tls b) b) { held = tls.held } ≡ tls
  uncounted-taken tls true small = refl
  uncounted-taken tls false small =
      ap (λ n. record tls { num_spins = n }) (spins_back tls.num_spins small)

  -- lksmith_prelock, lksmith_postlock after a real function that took the lock, lksmith_preunlock and
  -- lksmith_postunlock all succeed. After the second the thread has the lock; after the last its
  -- storage and the holders of the lock are as before the first, and the graph is well-formed. (For
  -- the conditions of lksmith_prelock, memory for the held list, a name that fits its buffer, and a
  -- count of spin locks within its 63 bits, with no other thread in between.)
  pub lock_unlock :
      (a : LockAnswers) (b c d : TlsAnswers) (sleeper : Bool) (tls : Tls) (frames : List Text)
      (l : Lock)
      → (w : World T) → Runs T C t tls w
      → take 15 tls.name ≡ tls.name
      → tls.num_spins < 2 ^ 63
      → a.frames ≡ some frames
      → IsWf T w.graph
      → w.graph.color + 1 < 2 ^ 64
      → (T.find ptr w.graph.tree ≡ some lk) × (w.graph.heap lk ≡ some l)
        ⊎ (T.find ptr w.graph.tree ≡ none)
          × (w.graph.heap lk ≡ none)
          × (a.lock_memory ≡ some lk)
          × (l ≡ new_lock ptr true sleeper)
      → (w1 w2 w3 w4 : World T) × (tls2 : Tls) × (lksmith_prelock T C a t ptr sleeper w
          ≡ done (ok, w1))
        × (lksmith_postlock T C b true t ptr ok w1 ≡ done (tt, w2))
        × (w2.tls t ≡ some tls2)
        × (tls_contains_lid tls2.held ptr ≡ true)
        × (lksmith_preunlock T C c t ptr w2 ≡ done (ok, w3))
        × (lksmith_postunlock T C d t ptr w3 ≡ done (tt, w4))
        × (w4.tls t ≡ some tls)
        × (l4 : Lock) × Known T lk ptr l4 w4.graph
        × (l4.holders ≡ l.holders)
  unfolding tls_append_held
  lock_unlock a b c d sleeper tls frames l w runs fits small bt wf colors lock =
      let (w1, e1, p) =
        lksmith_prelock-Entered T C a t ptr sleeper tls frames lk l w runs bt wf colors lock in
      let (w2, e2, q) =
        postlock-Stands T C t lk ptr b p.after tls w1 (rw p.tls runs.0, runs.1) p.known in
      let s = p.after.props.sleeper in
      let tls2 = taken T C t lk ptr tls s in
      let (_, contains, removes) = tls_remove_held-append tls.held ptr in
      let w3 = preunlock_held T C t q.after tls2 w2 in
      let (graph, stored) = uncounted_lem q.after tls2 w2 s q.sleeper q.storage in
      let known : Known T lk ptr q.after w3.graph = rw graph q.known in
      let holders : q.after.holders ≡ record { name = tls.name; bt_frames = frames } ∷ l.holders =
        q.holders ∙ p.holders ∙ (rw fits) in
      let gone : lk_holder_remove tls.name q.after.holders ≡ done (ok, l.holders) =
        rw holders
          (lk_holder_remove_lem [] l.holders (record { name = tls.name; bt_frames = frames })
            tt).0 in
      (
        w1,
        w2,
        w3,
        record w3 {
          graph = with_lock T w3.graph lk (record q.after { holders = l.holders });
          tls = store t (record (uncounted tls2 s) { held = tls.held }) w3.tls;
        },
        tls2,
        e1,
        e2,
        q.storage,
        contains,
        preunlock_lem c q.after tls2 w2 (q.storage, runs.1) q.known contains,
        postunlock_lem d q.after (uncounted tls2 s) w3 tls.held l.holders (stored, runs.1) known
            removes gone,
        store_self t (record (uncounted tls2 s) { held = tls.held }) w3.tls
            ∙ ap some (uncounted-taken tls s small),
        record q.after { holders = l.holders },
        Known-store T lk ptr q.after (record q.after { holders = l.holders }) w3.graph known refl
            refl refl,
        refl,
      )
