-- ===== src/World.antt =====
-- The state of the library and the thread-local storage (lksmith.c, struct lksmith_tls, the globals,
-- lksmith_init, get_or_create_tls and init_tls), in the configuration HAVE_IMPROVED_TLS of config.h.
-- A call runs under its lock from its first to its last access of a global, so it is one step; what
-- the C library and pthreads answer is in a record of answers.
pub mod Frame
use lksmith.Base.{
  ◌==◌, ℕ, Bool, true, not, List, [], ◌∷◌, ◌++◌, Option, none, some, if◌then◌else◌, Outcome, done,
  fault, aborted, dangling, ◌>>=◌,
}
use lksmith.Code.{Code, Errno, ok, err, neg, enomem, elibacc, failed}
use lksmith.Lock.{Text, store}
use lksmith.Tree.{TreeLib}
use lksmith.Graph.{Graph}
use lksmith.Cond.{Conds}
use lksmith.Ignore.{TextLib, IgnoreMemory, lksmith_init_ignored}
use lksmith.Report.{Report, Message, no_tls}

pub record Tls : Type 0 where
  pub name : Text
  pub held : List ℕ
  pub num_spins : ℕ
  pub intercept : Bool

pub record World (T : TreeLib) : Type 0 where
  pub initialized : Bool
  pub graph : Graph T
  pub conds : Conds T
  pub ignored_frames : List Text
  pub ignored_patterns : List Text
  -- What `t_improved_tls` of each thread points at, if it is neither null nor dangling.
  pub tls : ℕ → Option Tls
  -- Whether the storage that `t_improved_tls` of a thread points at was freed.
  pub freed : ℕ → Bool
  pub log : List Report

-- What lksmith_init is answered: whether every function of pthreads was found, the two environment
-- variables with the memory for them, and the codes of pthread_key_create and of the two mutexes.
pub record InitAnswers : Type 0 where
  pub loaded : Bool
  pub frames_env : Option Text
  pub frames_memory : IgnoreMemory
  pub patterns_env : Option Text
  pub patterns_memory : IgnoreMemory
  pub key : Code
  pub tree_mutex : Code
  pub cond_mutex : Code

-- What get_or_create_tls is answered: memory, the thread name of the platform, and the code of
-- pthread_setspecific.
pub record TlsAnswers : Type 0 where
  pub init : InitAnswers
  pub memory : Bool
  pub thread_name : Text
  pub setspecific : Code

module _ (T : TreeLib) (C : TextLib) where
  abbrev pub log_report : Errno → Message → World T → World T
  log_report code message w = record w {
    log = w.log ++ record { code = code; message = message } ∷ [];
  }

  -- Each failure of lksmith_init aborts the process.
  pub must : Code → World T → Outcome (World T)
  must ok w = done w
  must _ w = fault aborted

  -- LOAD_FUNC returns ELIBACC from lksmith_handler_init.
  pub lksmith_handler_init : Bool → Code
  lksmith_handler_init loaded = if loaded then ok else err elibacc

  pub lksmith_init : InitAnswers → World T → Outcome (World T)
  unfolding must lksmith_handler_init
  lksmith_init a w =
      let (frames_code, frames) = lksmith_init_ignored C a.frames_memory a.frames_env in
      let (patterns_code, patterns) = lksmith_init_ignored C a.patterns_memory a.patterns_env in
      must (lksmith_handler_init a.loaded) w >>= λ w.
      must frames_code (record w { ignored_frames = frames }) >>= λ w.
      must patterns_code (record w { ignored_patterns = patterns }) >>= λ w. must a.key w >>= λ w.
      must a.tree_mutex w >>= λ w.
      must a.cond_mutex w >>= λ w. done (record w { initialized = true })

  -- The part of get_or_create_tls after initialization, for a thread with no storage yet.
  pub create_tls : TlsAnswers → ℕ → World T → Option Tls × World T
  create_tls a t w =
      if not a.memory
      then (none, log_report enomem no_tls w)
      else (if failed a.setspecific
          then (none, log_report enomem no_tls w)
          else (let tls : Tls = record {
            name = a.thread_name;
            held = [];
            num_spins = 0;
            intercept = true;
          } in
              (some tls, record w { tls = store t tls w.tls })))

  unfoldable pub get_or_create_tls : TlsAnswers → ℕ → World T → Outcome (Option Tls × World T)
  unfolding lksmith_init create_tls
  get_or_create_tls a t w = elim (w.tls t) [
    | some tls ↦ done (some tls, w)
    | none ↦
        let opened = if w.initialized then done w else lksmith_init a.init w in
        if w.freed t then fault dangling else (opened >>= λ w'. done (create_tls a t w'))
  ]

  unfoldable pub init_tls : TlsAnswers → ℕ → World T → Outcome (Code × World T)
  unfolding get_or_create_tls
  init_tls a t w = get_or_create_tls a t w >>= λ r. elim r.0 [
    | none ↦ done (neg enomem, r.1)
    | some tls ↦ done (ok, r.1)
  ]

  -- The destructor of the storage of a thread that ends: the held list is freed with it, the locks in
  -- this list keep their holders, and `t_improved_tls` still points there.
  unfoldable pub lksmith_tls_destroy : ℕ → World T → World T
  lksmith_tls_destroy t w = record w {
    tls = λ j. if t == j then none else w.tls j;
    freed = λ j. if t == j then true else w.freed j;
  }
