-- ===== src/Tests/Asleep.antt =====
-- A thread with mutex 10 waits on the condition variable 70, on which two others wait.
use lksmith.Base.{refl, some, arith}
use lksmith.Code.{ok}
use lksmith.Tree.Assoc.{assoc_lib}
use lksmith.World.{World}
use lksmith.Handler.{cond_wait}
use lksmith.Handler.Waiting.{WaitAnswers, pthread_cond_wait}
use lksmith.Handler.Sleeping.{Goes, pthread_cond_wait_lem}
use lksmith.Tests.Ignored.{plain_lib}
use lksmith.Tests.Threads.{answers, main_tls, started}
use lksmith.Tests.Conds.{waited, waited-IsWf, few}

abbrev alone : WaitAnswers assoc_lib plain_lib
alone = record { tls = answers; memory = some 800; real = ok; meanwhile = λ u. u }

abbrev locked : World assoc_lib
locked = record started { conds = waited }

pthread_cond_wait_lem_example :
    Goes assoc_lib plain_lib cond_wait 1 70 10 alone main_tls locked
      (pthread_cond_wait assoc_lib plain_lib alone 1 70 10 locked)
pthread_cond_wait_lem_example =
    pthread_cond_wait_lem assoc_lib plain_lib 1 70 10 alone main_tls 800 locked (refl, refl) refl
      refl waited-IsWf (omega arith) few
      (λ u cnd c wf live own used small. (wf, c, live, own, used, small))
