-- ===== src/Tests/Logged.antt =====
-- A message for "file://a", which does not open.
use lksmith.Base.{some, false, [], ◌∷◌, ◌++◌, none, some}
use lksmith.Log.{Log, LogAnswers, uninit, file_prefix}

abbrev pub no_file : LogAnswers
no_file = record { env = some (file_prefix ++ 97 ∷ []); fopen = false; strtoull = λ s. none }

abbrev at_start : Log
at_start = record { type = uninit; stream = none; cb = none; lines = [] }
