-- ===== src/Api/Calls.antt =====
-- What the functions around the real ones have in common: a thread with storage, and a known lock.
use lksmith.Base.{ℕ, ◌≡◌, true, some, Outcome}
use lksmith.Lock.{Lock, store}
use lksmith.Tree.{TreeLib}
use lksmith.Graph.{Graph, IsWf}
use lksmith.Graph.Update.{store_self, IsWf-store}
use lksmith.Ignore.{TextLib}
use lksmith.World.{World, Tls, TlsAnswers, get_or_create_tls}
use lksmith.Api.{with_tls}

module _ (T : TreeLib) where
  -- The graph is well-formed, and the lock `ptr` has the structure `l` at `lk`.
  pub record Known (lk ptr : ℕ) (l : Lock) (g : Graph T) : Type 0 where
    pub wf : IsWf T g
    pub found : T.find ptr g.tree ≡ some lk
    pub live : g.heap lk ≡ some l

  abbrev pub with_lock : Graph T → ℕ → Lock → Graph T
  with_lock g lk l = record g { heap = store lk l g.heap }

  -- A write that keeps what the graph depends on.
  pub Known-store :
      (lk ptr : ℕ) (l l' : Lock) (g : Graph T)
      → Known lk ptr l g
      → l'.ptr ≡ l.ptr
      → l'.before ≡ l.before
      → l'.color ≡ l.color
      → Known lk ptr l' (with_lock g lk l')
  Known-store lk ptr l l' g k own before color = record {
    wf =
        IsWf-store T g lk l l' k.wf k.live own (rw before (k.wf.before-IsSorted lk l k.live))
          (rw before (k.wf.before-live lk l k.live)) (rw color (k.wf.color-le lk l k.live));
    found = k.found;
    live = store_self lk l' g.heap;
  }

  pub Known-ptr : (lk ptr : ℕ) (l : Lock) (g : Graph T) → Known lk ptr l g → l.ptr ≡ ptr
  Known-ptr lk ptr l g k = let (m, e, p) = k.wf.find-live ptr lk k.found in cc (e, p, k.live)

module _ (T : TreeLib) (C : TextLib) where
  -- The thread `t` has the storage `tls`, and its calls are intercepted.
  abbrev pub Runs : ℕ → Tls → World T → Type 0
  Runs t tls w = (w.tls t ≡ some tls) × (tls.intercept ≡ true)

  pub with_tls-Runs {ℓ} :
      {R : Type ℓ}
      → (a : TlsAnswers) (t : ℕ) (no_memory bypass : R)
        (body : Tls → World T → Outcome (R × World T))
      → (w : World T) (tls : Tls) → Runs t tls w
      → with_tls T C a t no_memory bypass body w ≡ body tls w
  unfolding with_tls get_or_create_tls
  with_tls-Runs a t no_memory bypass body w tls r = rw (with_tls, get_or_create_tls, r.0, r.1)
