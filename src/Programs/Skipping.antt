-- ===== src/Programs/Skipping.antt =====
-- ignore_unit.c: calls from a function that the environment variable names.
use lksmith.Base.{
  ℕ, ◌==◌, Bool, true, false, ◌&&◌, List, [], ◌∷◌, ◌++◌, if◌then◌else◌, Outcome, done, ◌>>=◌,
}
use lksmith.Code.{Code, failed}
use lksmith.Lock.{Text}
use lksmith.Tree.{TreeLib}
use lksmith.Holders.{same_text}
use lksmith.Ignore.{TextLib}
use lksmith.Support.{num_recorded_errors}
use lksmith.World.{World, TlsAnswers}
use lksmith.Api.{lksmith_get_ignored_frame_patterns}
use lksmith.Programs.{
  Program, Answers, Statement, passed, mismatch, called, clear_errors, mutex_lock, mutex_unlock,
}

-- "*ignore1*" and so on, by the digit
abbrev pub ignore_pattern : ℕ → Text
ignore_pattern digit = 42 ∷ 105 ∷ 103 ∷ 110 ∷ 111 ∷ 114 ∷ 101 ∷ digit ∷ 42 ∷ []

-- What putenv gives LKSMITH_IGNORED_FRAME_PATTERNS in main.
abbrev pub ignored_variable : Text
ignored_variable = ignore_pattern 51 ++ 58 ∷ ignore_pattern 50 ++ 58 ∷ ignore_pattern 49

same_texts : List Text → List Text → Bool
same_texts [] [] = true
same_texts [] (y ∷ ys) = false
same_texts (x ∷ xs) [] = false
same_texts (x ∷ xs) (y ∷ ys) = let rest = same_texts xs ys in same_text x y && rest

module _ (T : TreeLib) (C : TextLib) (P : Program) where
  -- A call whose result is not looked at.
  unfoldable pub ignoring : (World T → Outcome (Code × World T)) → Statement T C P
  unfolding called
  ignoring call b = called T C P call b >>= λ r. done (passed, r.1)

  unfoldable pub check_ignored_frame_patterns : TlsAnswers → ℕ → Statement T C P
  unfolding called same_texts
  check_ignored_frame_patterns a t b =
      let patterns : World T → Outcome ((Code × List Text) × World T) =
        λ w. lksmith_get_ignored_frame_patterns T C a t w >>= λ r. done ((r.0, r.1), r.2) in
      called T C P patterns b >>= λ r. done (
        if failed r.0.0
            then mismatch
            else (if same_texts r.0.1
                  (ignore_pattern 49 ∷ ignore_pattern 50 ∷ ignore_pattern 51 ∷ [])
                then passed
                else mismatch),
        r.1,
      )

  -- EXPECT_EQ(num_recorded_errors(), 0)
  unfoldable pub expect_no_errors : Statement T C P
  unfolding num_recorded_errors
  expect_no_errors b = done (if num_recorded_errors b.recorded == 0 then passed else mismatch, b)

  abbrev pub ignore1 : (ℕ → Answers T C) → (t lock1 lock2 : ℕ) → List (Statement T C P)
  ignore1 a t lock1 lock2 =
      ignoring (mutex_lock T C P (a 0) t lock2)
      ∷ ignoring (mutex_lock T C P (a 1) t lock1)
      ∷ ignoring (mutex_unlock T C P (a 2) t lock1)
      ∷ ignoring (mutex_unlock T C P (a 3) t lock2)
      ∷ []

  -- `a` are the answers of the calls of the function itself, and `c` those of ignore1.
  abbrev pub verify_ignored_frame_patterns_work :
      (a c : ℕ → Answers T C) → (t lock1 lock2 : ℕ) → List (Statement T C P)
  verify_ignored_frame_patterns_work a c t lock1 lock2 =
      clear_errors T C P
        ∷ ignoring (mutex_lock T C P (a 0) t lock1)
        ∷ ignoring (mutex_lock T C P (a 1) t lock2)
        ∷ ignoring (mutex_unlock T C P (a 2) t lock2)
        ∷ ignoring (mutex_unlock T C P (a 3) t lock1)
        ∷ ignore1 c t lock1 lock2
      ++ expect_no_errors ∷ []
