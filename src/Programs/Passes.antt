-- ===== src/Programs/Passes.antt =====
-- The test of a mutex in simple_unit.c, from its initialization to its destruction.
use lksmith.Base.{
  ℕ, ◌+◌, ◌^◌, ◌<◌, ◌≡◌, refl, ap, ◌∙◌, false, true, List, [], ◌∷◌, none, some, done, ==_refl,
}
use lksmith.Code.{ok}
use lksmith.Tree.{TreeLib}
use lksmith.Graph.{Graph, IsWf, new_lock, inserted, lksmith_insert}
use lksmith.Graph.Insert.{lksmith_insert-IsWf}
use lksmith.Graph.Forget.{lksmith_forget-IsWf, lksmith_forget_from}
use lksmith.Ignore.{TextLib}
use lksmith.Report.{Report}
use lksmith.World.{World, Tls, TlsAnswers, init_tls, get_or_create_tls}
use lksmith.Api.{lksmith_optional_init, init_result}
use lksmith.Api.Calls.{Known-ptr, with_tls-Runs}
use lksmith.Handler.{
  MutexAnswers, pthread_mutex_init, pthread_mutex_real_init, pthread_mutex_init_errcheck,
  mutex_real_inited, pthread_mutex_destroy, log_failure, mutex_destroy, mutex_init,
}
use lksmith.Handler.Refused.{destroy_free}
use lksmith.Programs.Steps.{Free}

module _ (T : TreeLib) (C : TextLib) (t lk ptr : ℕ) (tls : Tls) (log : List Report) where
  -- The thread has nothing, and the mutex is unknown.
  pub record Unknown (n : ℕ) (w : World T) : Type 0 where
    pub storage : w.tls t ≡ some tls
    pub wf : IsWf T w.graph
    pub unknown : T.find ptr w.graph.tree ≡ none
    pub unused : w.graph.heap lk ≡ none
    pub colors : w.graph.color + n < 2 ^ 64
    pub quiet : w.log ≡ log

  module _ (on : tls.intercept ≡ true) where
    inited : (a : TlsAnswers) (w : World T) → w.tls t ≡ some tls → init_tls T C a t w ≡ done (ok, w)
    unfolding init_tls get_or_create_tls
    inited a w e = rw (e, init_tls, get_or_create_tls) refl

    optional_inited :
        (a : TlsAnswers) (w : World T) (g : Graph T)
        → w.tls t ≡ some tls
        → lksmith_insert T (some lk) ptr false true w.graph ≡ (ok, some lk, g)
        → lksmith_optional_init T C a (some lk) t ptr false true w
          ≡ done (ok, record w { graph = g })
    unfolding lksmith_optional_init init_result
    optional_inited a w g e r =
        with_tls-Runs T C a t _ _ _ w tls (e, on) ∙ (rw (r, init_result) refl)

    real_inited :
        (types : List ℕ) (a : MutexAnswers) (w : World T)
        → a.attr_init ≡ ok
        → a.settype ≡ ok
        → a.real ≡ ok
        → pthread_mutex_real_init T C types a false ptr w ≡ ((ok, w, mutex_init ∷ []), false)
    unfolding pthread_mutex_real_init pthread_mutex_init_errcheck log_failure
    real_inited types a w attr settype real =
        rw (attr, settype, real, pthread_mutex_real_init, pthread_mutex_init_errcheck, log_failure)
          refl

    opened :
        (types : List ℕ) (a : MutexAnswers) (w : World T)
        → w.tls t ≡ some tls
        → pthread_mutex_init T C types a false t ptr w
          ≡ mutex_real_inited T C a t ptr (pthread_mutex_real_init T C types a false ptr w)
    unfolding pthread_mutex_init
    opened types a w e = rw (inited a.tls w e, pthread_mutex_init) refl

    known_inited :
        (a : MutexAnswers) (w : World T) (g : Graph T)
        → w.tls t ≡ some tls
        → a.memory ≡ some lk
        → lksmith_insert T (some lk) ptr false true w.graph ≡ (ok, some lk, g)
        → mutex_real_inited T C a t ptr ((ok, w, mutex_init ∷ []), false)
          ≡ done (ok, record w { graph = g }, mutex_init ∷ [])
    unfolding mutex_real_inited
    known_inited a w g e memory r =
        rw (memory, optional_inited a.tls w g e r, mutex_real_inited) refl

    pub mutex_init-Free :
        (types : List ℕ) (a : MutexAnswers) (n : ℕ) (w : World T)
        → a.attr_init ≡ ok
        → a.settype ≡ ok
        → a.real ≡ ok
        → a.memory ≡ some lk
        → Unknown n w
        → (w' : World T) × (pthread_mutex_init T C types a false t ptr w
            ≡ done (ok, w', mutex_init ∷ []))
          × Free T C t lk ptr tls log n w'
    unfolding lksmith_insert inserted new_lock
    mutex_init-Free types a n w attr settype real memory u =
        let g = (lksmith_insert T (some lk) ptr false true w.graph).2 in
        let (e0, e1, wf, live, found, _) =
          lksmith_insert-IsWf T w.graph ptr lk false true u.wf u.unknown u.unused in
        let e : lksmith_insert T (some lk) ptr false true w.graph ≡ (ok, some lk, g) =
          λ i. (e0 i, e1 i, g) in
        let color : g.color ≡ w.graph.color = rw (T.insert-find ptr lk w.graph.tree, u.unknown) in
        (
          record w { graph = g },
          opened types a w u.storage
              ∙ ap (mutex_real_inited T C a t ptr) (real_inited types a w attr settype real)
              ∙ known_inited a w g u.storage memory e,
          record {
            lock = new_lock ptr false true;
            storage = u.storage;
            known = record { wf = wf; found = found ptr ∙ (rw (==_refl ptr)); live = live };
            nobody = refl;
            sleeper = refl;
            colors = rw color u.colors;
            quiet = u.quiet;
          },
        )

    pub mutex_destroy-Unknown :
        (a : TlsAnswers) (n : ℕ) (w : World T)
        → Free T C t lk ptr tls log n w
        → (w' : World T) × (pthread_mutex_destroy T C a ok t ptr w
            ≡ done (ok, w', mutex_destroy ∷ []))
          × Unknown n w'
    unfolding pthread_mutex_destroy log_failure
    mutex_destroy-Unknown a n w f =
        let own = Known-ptr T lk ptr f.lock w.graph f.known in
        let (g, forget, wf, unknown, freed, _) =
          lksmith_forget-IsWf T w.graph ptr lk f.lock f.known.wf f.known.live own in
        let (color, _) =
          lksmith_forget_from T w.graph ptr lk f.lock f.known.wf f.known.live own g forget in
        (
          record w { graph = g },
          rw (destroy_free T C t ptr tls a w lk f.lock g (f.storage, on) f.known f.nobody forget)
              refl,
          record {
            storage = f.storage;
            wf = wf;
            unknown = unknown;
            unused = freed;
            colors = rw color f.colors;
            quiet = f.quiet;
          },
        )
