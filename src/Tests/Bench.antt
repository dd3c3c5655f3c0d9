-- ===== src/Tests/Bench.antt =====
-- What the runs of the unit tests share: the environment of the tests, with the errno values of Linux, and
-- answers of the real functions.
use lksmith.Base.{ℕ, zero, suc, true, [], ◌∷◌, List, none, some, Outcome, done, ◌>>=◌}
use lksmith.Code.{
  Errno, ok, err, eperm, enoent, eio, enomem, ebusy, eexist, einval, edeadlk, ewouldblock, elibacc,
  other,
}
use lksmith.Tree.Assoc.{assoc_lib}
use lksmith.Support.{record_error}
use lksmith.Programs.{SemLib, Program, Answers, Bench, Statement, Verdict, run_all}
use lksmith.System.{unstarted}
use lksmith.Tests.Ignored.{plain_lib}
use lksmith.Tests.Threads.{answers, lock_answers}

abbrev pub counters : SemLib
counters = record {
  Sem = ℕ;
  sem_init = λ n. n;
  sem_post = λ n. suc n;
  sem_wait = λ n. elim n [ zero ↦ none | suc m ↦ some m ];
}

abbrev pub linux_number : Errno → ℕ
linux_number eperm = 1
linux_number enoent = 2
linux_number eio = 5
linux_number enomem = 12
linux_number ebusy = 16
linux_number eexist = 17
linux_number einval = 22
linux_number edeadlk = 35
linux_number ewouldblock = 11
linux_number elibacc = 79
linux_number (other n) = n

-- The types of g_compatible_with_errcheck are 0 and 2.
abbrev pub recording : Program
recording = record {
  sems = counters;
  number = linux_number;
  callback = record_error true;
  types = 0 ∷ 2 ∷ [];
}

-- Answers of a call that succeeds, with memory at the given address.
abbrev pub succeeding : ℕ → Answers assoc_lib plain_lib
succeeding lk = record {
  tls = answers;
  mutex = record {
    tls = answers;
    attr_init = ok;
    gettype = ok;
    type = 0;
    settype = ok;
    real = ok;
    memory = some lk;
    destroy = ok;
  };
  take = record {
    pre = record lock_answers { lock_memory = some lk };
    post = answers;
    held_memory = true;
    real = ok;
    meanwhile = λ w. w;
  };
  give = record { pre = answers; post = answers; real = ok; meanwhile = λ w. w };
  memory = some lk;
  real = ok;
}

abbrev pub busy : ℕ → Answers assoc_lib plain_lib
busy lk =
    let a = succeeding lk in let t = a.take in record a { take = record t { real = err ebusy } }

abbrev pub bench : Bench assoc_lib plain_lib recording
bench = record { world = unstarted assoc_lib plain_lib; recorded = []; sems = λ k. 0 }

abbrev pub Tests : Type 0
Tests = List (Statement assoc_lib plain_lib recording)

-- How the test ends, on a library that nothing has called yet.
abbrev pub verdict : Tests → Outcome Verdict
verdict ss = run_all assoc_lib plain_lib recording ss bench >>= λ r. done r.0

-- The k-th call has the k-th answer, and from some call on the last.
abbrev pub answering : List (Answers assoc_lib plain_lib) → ℕ → Answers assoc_lib plain_lib
answering [] k = succeeding 300
answering (a ∷ rest) zero = a
answering (a ∷ rest) (suc k) = answering rest k

abbrev pub each_new : ℕ → Answers assoc_lib plain_lib
each_new = answering (succeeding 300 ∷ succeeding 301 ∷ succeeding 302 ∷ [])
