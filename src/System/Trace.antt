-- ===== src/System/Trace.antt =====
-- Messages with a backtrace (lksmith.c, lksmith_error_with_ti): the backtrace library may take locks
-- itself, whose calls come back to the API functions.
use lksmith.Base.{
  ℕ, ◌≡◌, refl, sym, ap, ◌∙◌, Bool, false, Bool-cases, inl, inr, ==_iff, List, [], ◌∷◌, Option,
  none, some, take, ◌==◌, Outcome, done, fault, dangling, ◌>>=◌,
}
use lksmith.Lock.{Text, store}
use lksmith.Graph.Update.{store_self}
use lksmith.Tree.{TreeLib}
use lksmith.Ignore.{TextLib}
use lksmith.World.{World, Tls, TlsAnswers, get_or_create_tls}
use lksmith.Log.{Log, LogAnswers, lksmith_errora, lksmith_errora_with_bt}
use lksmith.Backtrace.Libc as Libc
use lksmith.System.{Call, perform}
use lksmith.System.Bypass.{OnLock, perform-bypass}

-- backtrace.h: bt_frames_create with the scratch area of a thread, where `none` is a negative result and
-- leaves the frames null, and bt_frames_free.
pub record Backtracer : Type 1 where
  pub Scratch : Type 0
  pub bt_frames_create : Scratch → Outcome (Option (List Text) × Scratch)
  pub bt_frames_free : Option (List Text) → Outcome {0} Unit

-- The frames that the caller reads, by number.
abbrev frames_read : Option (ℕ × List Text) → Option (List Text)
frames_read none = none
frames_read (some (num, symbols)) = some (take num symbols)

abbrev pub libc_backtracer : Libc.LibcAnswers → Backtracer
libc_backtracer a = record {
  Scratch = Libc.Scratch;
  bt_frames_create = λ s. Libc.bt_frames_create a s >>= λ r. done (frames_read r.0, r.1);
  bt_frames_free = λ frames. done tt;
}

-- The loop of lksmith_errora_with_bt does nothing for a negative number.
abbrev pub shown : Option (List Text) → List Text
shown none = []
shown (some frames) = frames

module _ (T : TreeLib) (C : TextLib) (B : Backtracer) where
  -- The globals of lksmith.c, the scratch area of the thread, and the globals of error.c.
  pub record Traced : Type 0 where
    pub world : World T
    pub scratch : B.Scratch
    pub log : Log

  unfoldable pub perform_all : List Call → World T → Outcome (World T)
  perform_all [] w = done w
  perform_all (c ∷ cs) w = perform T C c w >>= λ w'. perform_all cs w'

  -- tls->intercept = value
  unfoldable pub set_intercept : ℕ → Bool → World T → Outcome (World T)
  set_intercept t value w = elim (w.tls t) [
    | none ↦ fault dangling
    | some tls ↦ done (record w { tls = store t (record tls { intercept = value }) w.tls })
  ]

  -- From `prev_intercept = tls->intercept` on; `calls` are those of the backtrace library.
  unfoldable pub trace : LogAnswers → List Call → ℕ → Tls → ℕ → Text → Traced → Outcome Traced
  unfolding perform_all set_intercept
  trace a calls t tls err text s = set_intercept t false s.world >>= λ off.
      perform_all calls off >>= λ after. B.bt_frames_create s.scratch >>= λ (frames, scratch).
      set_intercept t tls.intercept after >>= λ on.
      lksmith_errora_with_bt a err (shown frames) text s.log >>= λ log.
      B.bt_frames_free frames >>= λ u. done (record { world = on; scratch = scratch; log = log })

  unfoldable pub lksmith_error_with_ti :
      LogAnswers → TlsAnswers → List Call → ℕ → Option Tls → ℕ → Text → Traced → Outcome Traced
  unfolding trace
  lksmith_error_with_ti a b calls t (some tls) err text s = trace a calls t tls err text s
  lksmith_error_with_ti a b calls t none err text s =
      get_or_create_tls T C b t s.world >>= λ (found, w). elim found [
        | some tls ↦ trace a calls t tls err text (record s { world = w })
        | none ↦ lksmith_errora a err text s.log >>= λ log.
            done (record { world = w; scratch = s.scratch; log = log })
      ]

  abbrev pub AllOnLock : ℕ → List Call → Type 0
  AllOnLock t [] = Unit
  AllOnLock t (c ∷ cs) = OnLock t c × AllOnLock t cs

  perform_all-bypass :
      (t : ℕ) (tls : Tls) (w : World T) (cs : List Call)
      → w.tls t ≡ some tls
      → tls.intercept ≡ false
      → AllOnLock t cs
      → perform_all cs w ≡ done w
  unfolding perform_all
  perform_all-bypass t tls w [] e off mine = refl
  perform_all-bypass t tls w (c ∷ cs) e off (one, mine) =
      rw (perform-bypass T C t tls w c e off one) (perform_all-bypass t tls w cs e off mine)

  store-twice :
      (t j : ℕ) (u v : Tls) (h : ℕ → Option Tls) → h t ≡ some v → store t v (store t u h) j ≡ h j
  store-twice t j u v h e = elim (Bool-cases (t == j)) [
    | inl same ↦ let p : t ≡ j = (==_iff t j).0 same in rw same (sym e ∙ ap h p)
    | inr other ↦ rw other refl
  ]

  -- The thread while the backtrace is taken, and after it.
  abbrev muted : ℕ → Tls → World T → World T
  muted t tls w = record w { tls = store t (record tls { intercept = false }) w.tls }

  abbrev restored : ℕ → Tls → World T → World T
  restored t tls w = record w { tls = store t tls (muted t tls w).tls }

  trace-runs :
      (a : LogAnswers) (calls : List Call) (t : ℕ) (tls : Tls) (e : ℕ) (text : Text) (s : Traced)
      (frames : Option (List Text)) (scratch : B.Scratch) (log : Log)
      → s.world.tls t ≡ some tls
      → AllOnLock t calls
      → B.bt_frames_create s.scratch ≡ done (frames, scratch)
      → lksmith_errora_with_bt a e (shown frames) text s.log ≡ done log
      → B.bt_frames_free frames ≡ done tt
      → trace a calls t tls e text s
        ≡ done (record { world = restored t tls s.world; scratch = scratch; log = log })
  unfolding trace set_intercept
  trace-runs a calls t tls e text s frames scratch log own mine taken logged freed =
      let off : Tls = record tls { intercept = false } in
      let self = store_self t off s.world.tls in
      let silent = perform_all-bypass t off (muted t tls s.world) calls self refl mine in
      rw (own, silent, taken, self, logged, freed, trace, set_intercept) refl

  -- lksmith_error_with_ti with the storage of the thread or with a null pointer, for a thread that has
  -- storage: the message and then the frames of the backtrace, if there is one, go to the error log.
  -- Whatever calls on locks the backtrace library makes meanwhile, the locks, the condition variables,
  -- the messages of other calls and the storage of every thread are as before, with the interception
  -- as it was. (If the backtrace library and the error log return.)
  pub lksmith_error_with_ti_lem :
      (a : LogAnswers) (b : TlsAnswers) (calls : List Call) (t : ℕ) (tls : Tls) (e : ℕ)
      (text : Text) (s : Traced) (frames : Option (List Text)) (scratch : B.Scratch) (log : Log)
      → s.world.tls t ≡ some tls
      → AllOnLock t calls
      → B.bt_frames_create s.scratch ≡ done (frames, scratch)
      → lksmith_errora_with_bt a e (shown frames) text s.log ≡ done log
      → B.bt_frames_free frames ≡ done tt
      → (s' : Traced) × (lksmith_error_with_ti a b calls t none e text s ≡ done s')
        × (lksmith_error_with_ti a b calls t (some tls) e text s ≡ done s')
        × (s'.world.graph ≡ s.world.graph)
        × (s'.world.conds ≡ s.world.conds)
        × (s'.world.log ≡ s.world.log)
        × ((j : ℕ) → s'.world.tls j ≡ s.world.tls j)
        × (s'.log ≡ log)
  unfolding lksmith_error_with_ti get_or_create_tls
  lksmith_error_with_ti_lem a b calls t tls e text s frames scratch log own mine taken logged
        freed =
      let run = trace-runs a calls t tls e text s frames scratch log own mine taken logged freed in
      (
        record { world = restored t tls s.world; scratch = scratch; log = log },
        rw (own, get_or_create_tls, lksmith_error_with_ti) run,
        run,
        refl,
        refl,
        refl,
        λ j. store-twice t j (record tls { intercept = false }) tls s.world.tls own,
        refl,
      )
