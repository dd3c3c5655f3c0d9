-- ===== src/Api/Naming.antt =====
-- A thread sets its name and reads it again.
use lksmith.Base.{ℕ, ◌≡◌, ◌≢◌, refl, some, take, done}
use lksmith.Code.{ok}
use lksmith.Lock.{Text, store}
use lksmith.Tree.{TreeLib}
use lksmith.Graph.Update.{store_self, store_ne}
use lksmith.Ignore.{TextLib}
use lksmith.World.{World, Tls, TlsAnswers, get_or_create_tls}
use lksmith.Api.{lksmith_set_thread_name, lksmith_get_thread_name}

module _ (T : TreeLib) (C : TextLib) where
  stored :
      (b : TlsAnswers) (t : ℕ) (tls : Tls) (w : World T)
      → w.tls t ≡ some tls
      → get_or_create_tls T C b t w ≡ done (some tls, w)
  unfolding get_or_create_tls
  stored b t tls w e = rw (e, get_or_create_tls) refl

  -- A thread that sets its name, whether or not it had storage before, then reads the first 15
  -- characters of this name; the storage of other threads, the locks it holds, the graph and the log
  -- are what they were once the thread had storage. (If the thread gets storage.)
  pub set-get_thread_name :
      (a b : TlsAnswers) (t : ℕ) (name : Text) (tls : Tls) (w w0 : World T)
      → get_or_create_tls T C a t w ≡ done (some tls, w0)
      → (w1 : World T) × (lksmith_set_thread_name T C a t name w ≡ done (ok, w1))
        × (lksmith_get_thread_name T C b t w1 ≡ done (some (take 15 name), w1))
        × (w1.tls t ≡ some (record tls { name = take 15 name }))
        × ((j : ℕ) → t ≢ j → w1.tls j ≡ w0.tls j)
        × (w1.graph ≡ w0.graph)
        × (w1.log ≡ w0.log)
  unfolding lksmith_set_thread_name lksmith_get_thread_name
  set-get_thread_name a b t name tls w w0 e =
      let tls1 : Tls = record tls { name = take 15 name } in
      let w1 : World T = record w0 { tls = store t tls1 w0.tls } in
      let own = store_self t tls1 w0.tls in
      (
        w1,
        rw (lksmith_set_thread_name, e) refl,
        rw (lksmith_get_thread_name, stored b t tls1 w1 own) refl,
        own,
        λ j ne. store_ne t j tls1 w0.tls ne,
        refl,
        refl,
      )
