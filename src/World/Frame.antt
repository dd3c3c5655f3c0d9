-- ===== src/World/Frame.antt =====
-- What every call may change besides its own work: the thread's storage, the initialization, and
-- reports that are no lock inversions.
use lksmith.Base.{
  ℕ, ◌≡◌, refl, ◌∙◌, inl, inr, true, false, none, List, [], ◌∷◌, ◌++◌, Option, Outcome, done,
  Ensures, Ensures-bind, ◌>>=◌, append-nil, Option-cases, if_either, if◌then◌else◌, not, In, some,
  sym, subst,
}
use lksmith.Code.{Code, Errno, ok, failed, enomem}
use lksmith.Tree.{TreeLib}
use lksmith.Lock.{Text}
use lksmith.Ignore.{TextLib, lksmith_init_ignored}
use lksmith.Report.{Report, Message, no_tls}
use lksmith.Depends.Round.{inversions}
use lksmith.Depends.Order.{inversions-append}
use lksmith.World.{
  World, Tls, InitAnswers, TlsAnswers, log_report, must, lksmith_handler_init, lksmith_init,
  create_tls, get_or_create_tls,
}

module _ (T : TreeLib) where
  pub record Same (w w' : World T) : Type 0 where
    pub graph : w'.graph ≡ w.graph
    pub conds : w'.conds ≡ w.conds
    pub log : inversions w'.log ≡ inversions w.log

  pub Same-refl : (w : World T) → Same w w
  Same-refl w = record { graph = refl; conds = refl; log = refl }

  pub Same-trans : (u v w : World T) → Same u v → Same v w → Same u w
  Same-trans u v w p q = record {
    graph = q.graph ∙ p.graph;
    conds = q.conds ∙ p.conds;
    log = q.log ∙ p.log;
  }

  -- A report that is no inversion.
  pub quiet_log :
      (log : List Report) (r : Report)
      → inversions (r ∷ []) ≡ []
      → inversions (log ++ r ∷ []) ≡ inversions log
  quiet_log log r q = inversions-append log (r ∷ []) ∙ rw q (append-nil (inversions log))

module _ (T : TreeLib) (C : TextLib) where
  pub log_report-Same :
      (code : Errno) (message : Message) (w : World T)
      → inversions (record { code = code; message = message } ∷ []) ≡ []
      → Same T w (log_report T C code message w)
  log_report-Same code message w q = record {
    graph = refl;
    conds = refl;
    log = quiet_log T w.log (record { code = code; message = message }) q;
  }

  must-Same : (code : Code) (w u : World T) → Same T w u → Ensures (Same T w) (must T C code u)
  unfolding must
  must-Same ok w u s = s
  must-Same _ w u s = tt

  init-Same : (a : InitAnswers) (w : World T) → Ensures (Same T w) (lksmith_init T C a w)
  unfolding lksmith_init
  init-Same a w =
      let frames = lksmith_init_ignored C a.frames_memory a.frames_env in
      let patterns = lksmith_init_ignored C a.patterns_memory a.patterns_env in
      let f6 : World T → Outcome (World T) = λ u. done (record u { initialized = true }) in
      let f5 : World T → Outcome (World T) = λ u. must T C a.cond_mutex u >>= f6 in
      let f4 : World T → Outcome (World T) = λ u. must T C a.tree_mutex u >>= f5 in
      let f3 : World T → Outcome (World T) = λ u. must T C a.key u >>= f4 in
      let f2 : World T → Outcome (World T) =
        λ u. must T C patterns.0 (record u { ignored_patterns = patterns.1 }) >>= f3 in
      let f1 : World T → Outcome (World T) =
        λ u. must T C frames.0 (record u { ignored_frames = frames.1 }) >>= f2 in
      step f1 (lksmith_handler_init T C a.loaded) w (Same-refl T w) λ u1 s1.
        step f2 frames.0 (record u1 { ignored_frames = frames.1 }) (with_frames u1 frames.1 s1)
          λ u2 s2.
            step f3 patterns.0 (record u2 { ignored_patterns = patterns.1 })
              (with_patterns u2 patterns.1 s2)
              λ u3 s3. step f4 a.key u3 s3 λ u4 s4. step f5 a.tree_mutex u4 s4 λ u5 s5.
                step f6 a.cond_mutex u5 s5
                  λ u6 s6. record { graph = s6.graph; conds = s6.conds; log = s6.log }
    where
      step :
          (f : World T → Outcome (World T)) (code : Code) (u : World T)
          → Same T w u
          → ((v : World T) → Same T w v → Ensures (Same T w) (f v))
          → Ensures (Same T w) (must T C code u >>= f)
      step f code u s next =
          Ensures-bind (Same T w) (Same T w) (must T C code u) f (must-Same code w u s) next

      with_frames :
          (u : World T) (ts : List Text) → Same T w u → Same T w (record u { ignored_frames = ts })
      with_frames u ts s = record { graph = s.graph; conds = s.conds; log = s.log }

      with_patterns :
          (u : World T) (ts : List Text)
          → Same T w u
          → Same T w (record u { ignored_patterns = ts })
      with_patterns u ts s = record { graph = s.graph; conds = s.conds; log = s.log }

  create_tls-Same : (a : TlsAnswers) (t : ℕ) (w : World T) → Same T w (create_tls T C a t w).1
  unfolding create_tls
  create_tls-Same a t w =
      if_either {A = Option Tls × World T} (λ r. Same T w r.1) (not a.memory) _ _
        (log_report-Same enomem no_tls w refl)
        (if_either {A = Option Tls × World T} (λ r. Same T w r.1) (failed a.setspecific) _ _
          (log_report-Same enomem no_tls w refl)
          (record { graph = refl; conds = refl; log = refl }))

  -- `t_improved_tls` of the thread does not point at storage that was freed.
  abbrev pub Fresh : ℕ → World T → Type 0
  Fresh t w = w.tls t ≡ none → w.freed t ≡ false

  pub get_or_create_tls-Same :
      (a : TlsAnswers) (t : ℕ) (w : World T)
      → Fresh t w
      → Ensures (λ r. Same T w r.1) (get_or_create_tls T C a t w)
  unfolding get_or_create_tls
  get_or_create_tls-Same a t w fresh = elim (Option-cases (w.tls t)) [
    | inr (tls, e) ↦ rw (get_or_create_tls, e) (Same-refl T w)
    | inl e ↦
        rw (get_or_create_tls, e, fresh e)
          (Ensures-bind (Same T w) (λ r. Same T w r.1) _ _
            (if_either (Ensures (Same T w)) w.initialized (done w) (lksmith_init T C a.init w)
              (Same-refl T w) (init-Same a.init w))
            (λ u s. Same-trans T w u _ s (create_tls-Same a t u)))
  ]

  -- The thread `t` has `h` in its list.
  abbrev pub Holds : ℕ → ℕ → World T → Type 0
  Holds t h w = (tls : Tls) × (w.tls t ≡ some tls) × In h tls.held

  abbrev pub Storage : ℕ → World T → Option Tls → Type 0
  Storage t w o = (tls : Tls) → o ≡ some tls → (h : ℕ) → In h tls.held → Holds t h w

  -- New storage has an empty list.
  pub get_or_create_tls-Holds :
      (a : TlsAnswers) (t : ℕ) (w : World T)
      → Fresh t w
      → Ensures (λ r. Storage t w r.0) (get_or_create_tls T C a t w)
  unfolding get_or_create_tls create_tls
  get_or_create_tls-Holds a t w fresh = elim (Option-cases (w.tls t)) [
    | inr (tls0, e) ↦
        let run : get_or_create_tls T C a t w ≡ done (some tls0, w) =
          rw (e, get_or_create_tls) refl in
        subst (Ensures (λ r. Storage t w r.0)) (sym run) (λ tls q h m. (tls, e ∙ q, m))
    | inl e ↦
        let run : get_or_create_tls T C a t w ≡ (
            (if w.initialized then done w else lksmith_init T C a.init w) >>= λ w'.
            done (create_tls T C a t w')) =
          rw (e, get_or_create_tls, fresh e) refl in
        subst (Ensures (λ r. Storage t w r.0)) (sym run) (
          Ensures-bind (Same T w) (λ r. Storage t w r.0) _ _
            (if_either (Ensures (Same T w)) w.initialized (done w) (lksmith_init T C a.init w)
              (Same-refl T w) (init-Same a.init w))
            (λ u s. created u))
  ]
    where
      new_held : (tls v : Tls) → some v ≡ some tls → v.held ≡ [] → tls.held ≡ []
      new_held tls v q e = let same : v ≡ tls = cc q in rw same at e

      created : (u : World T) → Storage t w (create_tls T C a t u).0
      created u =
          if_either {A = Option Tls × World T} (λ r. Storage t w r.0) (not a.memory) _ _
            (λ tls q. cc q)
            (if_either {A = Option Tls × World T} (λ r. Storage t w r.0) (failed a.setspecific) _ _
              (λ tls q. cc q)
              (λ tls q h m. absurd (
                rw
                  (new_held tls
                    (record { name = a.thread_name; held = []; num_spins = 0; intercept = true }) q
                    refl)
                  at m)))
