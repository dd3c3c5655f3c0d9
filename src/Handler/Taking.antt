-- ===== src/Handler/Taking.antt =====
-- pthread_mutex_lock when the real function takes the mutex.
use lksmith.Base.{ℕ, ◌+◌, ◌^◌, ◌<◌, ◌≡◌, refl, ◌∙◌, ◌⊎◌, true, List, [], ◌∷◌, none, some, done}
use lksmith.Code.{ok}
use lksmith.Lock.{Text, Lock}
use lksmith.Tree.{TreeLib}
use lksmith.Graph.{IsWf, new_lock}
use lksmith.Held.{tls_append_held, tls_contains_lid}
use lksmith.Held.Laws.{tls_remove_held-append}
use lksmith.Ignore.{TextLib}
use lksmith.World.{World, Tls}
use lksmith.Api.Calls.{Known, Runs}
use lksmith.Api.Enter.{lksmith_prelock-Entered}
use lksmith.Api.Taken.{taken, postlock-Stands}
use lksmith.Handler.{TakeAnswers, mutex_lock, take_lock, pthread_mutex_lock}

module _ (T : TreeLib) (C : TextLib) (t lk ptr : ℕ) where
  -- What a thread may rely on while it waits: the others keep its storage, the graph well-formed and
  -- the lock where it is.
  abbrev pub Keeps : (World T → World T) → Type 0
  Keeps others =
      (u : World T) (l : Lock)
      → Known T lk ptr l u.graph
      → ((others u).tls t ≡ u.tls t) × ((l' : Lock) × Known T lk ptr l' (others u).graph)

  -- If the real function takes the mutex, pthread_mutex_lock returns 0 after one real call; the thread
  -- then has the mutex in its held list, and the graph is well-formed. Other threads may do anything
  -- meanwhile that keeps the storage of this one, the graph well-formed and the lock where it is. (For
  -- the conditions of lksmith_prelock, and memory for the held list.)
  pub pthread_mutex_lock_lem :
      (a : TakeAnswers T C) (tls : Tls) (frames : List Text) (l : Lock) (w : World T)
      → Runs T C t tls w
      → a.pre.frames ≡ some frames
      → a.held_memory ≡ true
      → a.real ≡ ok
      → Keeps a.meanwhile
      → IsWf T w.graph
      → w.graph.color + 1 < 2 ^ 64
      → (T.find ptr w.graph.tree ≡ some lk) × (w.graph.heap lk ≡ some l)
        ⊎ (T.find ptr w.graph.tree ≡ none)
          × (w.graph.heap lk ≡ none)
          × (a.pre.lock_memory ≡ some lk)
          × (l ≡ new_lock ptr true true)
      → (w' : World T) × (tls' : Tls) × (l' : Lock) × (pthread_mutex_lock T C a t ptr w
          ≡ done (ok, w', mutex_lock ∷ []))
        × (w'.tls t ≡ some tls')
        × (tls_contains_lid tls'.held ptr ≡ true)
        × Known T lk ptr l' w'.graph
  unfolding pthread_mutex_lock take_lock tls_append_held
  pthread_mutex_lock_lem a tls frames l w runs bt memory real keeps wf colors lock =
      let (w1, e1, p) =
        lksmith_prelock-Entered T C a.pre t ptr true tls frames lk l w runs bt wf colors lock in
      let (same, (l2, known)) = keeps w1 p.after p.known in
      let (w2, e2, q) =
        postlock-Stands T C t lk ptr a.post l2 tls (a.meanwhile w1)
          (same ∙ (rw p.tls runs.0), runs.1) known in
      (
        w2,
        taken T C t lk ptr tls l2.props.sleeper,
        q.after,
        rw e1 (rw (memory, real, e2) refl),
        q.storage,
        (tls_remove_held-append tls.held ptr).1,
        q.known,
      )
