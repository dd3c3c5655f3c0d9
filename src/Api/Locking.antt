-- ===== src/Api/Locking.antt =====
-- Around the real lock function (lksmith.c, holder_create, lksmith_prelock and lksmith_postlock).
use lksmith.Base.{
  ℕ, ◌+◌, ◌%◌, ◌^◌, Bool, true, not, List, ◌++◌, Option, none, some, ltb, if◌then◌else◌, Outcome,
  done, fault, dangling, ◌>>=◌, ◌&&◌, take,
}
use lksmith.Code.{Code, ok, err, enomem, eio, ewouldblock, failed}
use lksmith.Lock.{Text, Lock, Holder, store}
use lksmith.Tree.{TreeLib}
use lksmith.Held.{tls_append_held}
use lksmith.Holders.{lk_holder_add, lk_holder_remove}
use lksmith.Graph.{Graph, lksmith_find, lksmith_insert}
use lksmith.Depends.{lksmith_prelock_process_depends}
use lksmith.Ignore.{TextLib, should_skip_dependency_processing}
use lksmith.Report.{
  no_holder_data, no_lock_data, no_prelock_data, no_held_space, sleeping_under_spin,
}
use lksmith.World.{World, Tls, TlsAnswers, log_report}
use lksmith.Api.{with_tls}

-- What lksmith_prelock is answered: the frames of the backtrace (`none` if there is no memory for the
-- holder or bt_frames_create fails), and memory for the lock and for each `before` entry.
pub record LockAnswers : Type 0 where
  pub tls : TlsAnswers
  pub frames : Option (List Text)
  pub lock_memory : Option ℕ
  pub grow : ℕ → Bool

-- 2^61 - 1
abbrev pub max_nlock : ℕ
max_nlock = 0x1fffffffffffffff

-- The name is copied into a buffer of 16 characters; `intercept` is restored after the backtrace.
unfoldable pub holder_create : Option (List Text) → Tls → Option Holder
holder_create none tls = none
holder_create (some frames) tls = some (record { name = take 15 tls.name; bt_frames = frames })

module _ (T : TreeLib) (C : TextLib) where
  -- Adding the holder to the lock's list.
  unfoldable pub add_holder : ℕ → Holder → World T → Outcome (Code × World T)
  add_holder lk holder w = elim (w.graph.heap lk) [
    | none ↦ fault dangling
    | some l ↦
        let l' : Lock = record l { holders = lk_holder_add holder l.holders } in
        let g = w.graph in done (ok, record w { graph = record g { heap = store lk l' g.heap } })
  ]

  -- lksmith_prelock once the lock has a structure: the order check, unless a frame switches it off.
  unfoldable pub prelock_at : (ℕ → Bool) → Tls → ℕ → Holder → ℕ → World T → Outcome (Code × World T)
  unfolding add_holder
  prelock_at grow tls ptr holder lk w =
      if should_skip_dependency_processing C w.ignored_frames w.ignored_patterns holder.bt_frames
      then add_holder lk holder w
      else (lksmith_prelock_process_depends T grow tls.held lk ptr w.graph >>= λ r.
          add_holder lk holder (record w { graph = r.0; log = w.log ++ r.1 }))

  -- After lksmith_insert of a lock that was not known. The holder is freed on failure.
  unfoldable pub prelock_new :
      (ℕ → Bool) → Tls → ℕ → Holder → Code × Option ℕ × Graph T → World T → Outcome (Code × World T)
  unfolding prelock_at
  prelock_new grow tls ptr holder (ok, some lk, g) w =
      prelock_at grow tls ptr holder lk (record w { graph = g })
  prelock_new grow tls ptr holder (err e, out, g) w =
      done (err e, log_report T C e (no_lock_data ptr) (record w { graph = g }))
  prelock_new grow tls ptr holder (code, out, g) w = fault dangling

  unfoldable pub prelock_body : LockAnswers → ℕ → Bool → Tls → World T → Outcome (Code × World T)
  unfolding prelock_new prelock_at holder_create
  prelock_body a ptr sleeper tls w = elim (holder_create a.frames tls) [
    | none ↦ done (err enomem, log_report T C enomem (no_holder_data ptr) w)
    | some holder ↦ elim (lksmith_find T ptr w.graph) [
      | some lk ↦ prelock_at a.grow tls ptr holder lk w
      | none ↦
          prelock_new a.grow tls ptr holder
            (lksmith_insert T a.lock_memory ptr true sleeper w.graph) w
    ]
  ]

  unfoldable pub lksmith_prelock : LockAnswers → ℕ → ℕ → Bool → World T → Outcome (Code × World T)
  unfolding prelock_body
  lksmith_prelock a t ptr sleeper =
      with_tls T C a.tls t (err enomem) ok (λ tls w. prelock_body a ptr sleeper tls w)

  -- The end of lksmith_postlock, after the lock is in the held list of the thread: a spin lock is
  -- counted in a field of 63 bits, and a sleeping lock under a spin lock is reported once.
  unfoldable pub postlock_spins : ℕ → ℕ → ℕ → Lock → Tls → World T → World T
  postlock_spins t ptr lk l tls w =
      if not l.props.sleeper
      then record w {
        tls = store t (record tls { num_spins = (tls.num_spins + 1) % 2 ^ 63 }) w.tls;
      }
      else (if ltb 0 tls.num_spins && not l.props.spin_warn
          then (let g = w.graph in
              let p = l.props in
              let l' : Lock = record l { props = record p { spin_warn = true } } in
              log_report T C ewouldblock (sleeping_under_spin ptr) (record w {
                graph = record g { heap = store lk l' g.heap };
                tls = store t tls w.tls;
              }))
          else record w { tls = store t tls w.tls })

  -- lksmith_postlock after the real function took the lock. `held_memory` is the answer of realloc.
  unfoldable pub postlock_taken : Bool → ℕ → ℕ → ℕ → Lock → Tls → World T → World T
  unfolding postlock_spins
  postlock_taken held_memory t ptr lk l tls w =
      let p = l.props in
      let l' : Lock = record l {
        props = record p { nlock = if ltb p.nlock max_nlock then p.nlock + 1 else p.nlock };
      } in
      let g = w.graph in
      let w' : World T = record w { graph = record g { heap = store lk l' g.heap } } in
      let (code, held) = tls_append_held held_memory tls.held ptr in
      if failed code
      then log_report T C enomem (no_held_space ptr) w'
      else postlock_spins t ptr lk l' (record tls { held = held }) w'

  -- lksmith_postlock after the real function failed: the result of lk_holder_remove is ignored.
  unfoldable pub postlock_failed : ℕ → Lock → Tls → World T → Outcome (World T)
  postlock_failed lk l tls w = lk_holder_remove tls.name l.holders >>= λ r.
      let l' : Lock = record l { holders = r.1 } in
      let g = w.graph in done (record w { graph = record g { heap = store lk l' g.heap } })

  unfoldable pub lksmith_postlock :
      TlsAnswers → Bool → ℕ → ℕ → Code → World T → Outcome (Unit {0} × World T)
  unfolding postlock_taken postlock_failed
  lksmith_postlock a held_memory t ptr error = with_tls T C a t tt tt λ tls w.
      elim (lksmith_find T ptr w.graph) [
        | none ↦ done (tt, log_report T C eio (no_prelock_data ptr) w)
        | some lk ↦ elim (w.graph.heap lk) [
          | none ↦ fault dangling
          | some l ↦
              if failed error
              then (postlock_failed lk l tls w >>= λ w'. done (tt, w'))
              else done (tt, postlock_taken held_memory t ptr lk l tls w)
        ]
      ]
