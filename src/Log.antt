-- ===== src/Log.antt =====
-- Where messages go (error.c): the choice of the log target from LKSMITH_LOG, and the output of a
-- message with its backtrace. A message is the text that its format and arguments give.
pub mod Laws
use lksmith.Base.{
  ℕ, zero, suc, Bool, true, false, List, [], ◌∷◌, ◌++◌, Option, none, some, ◌==◌, ◌&&◌,
  if◌then◌else◌, Outcome, done, fault, null_deref, ◌>>=◌, take, drop, length,
}
use lksmith.Lock.{Text}
use lksmith.Holders.{same_text}

pub data LogType : Type 0 where
  uninit syslog file callback : LogType

pub data Stream : Type 0 where
  standard_error standard_output : Stream
  opened : Text → Stream

-- What was written: a message, or (`complaint`) one of the messages on stderr about LKSMITH_LOG.
pub data Line : Type 0 where
  to_syslog : Text → Line
  to_stream : Stream → Text → Line
  to_callback : ℕ → ℕ → Text → Line
  complaint : Line

-- g_log_type, g_log_file and g_error_cb, which start as null, and the output so far.
pub record Log : Type 0 where
  pub type : LogType
  pub stream : Option Stream
  pub cb : Option ℕ
  pub lines : List Line

-- What getenv and fopen answer, and strtoull in base 16, with `none` if it sets errno.
pub record LogAnswers : Type 0 where
  pub env : Option Text
  pub fopen : Bool
  pub strtoull : Text → Option ℕ

abbrev pub to_stderr : Log → Log
to_stderr s = record s { type = file; stream = some standard_error }

abbrev pub complain : Log → Log
complain s = record s { lines = s.lines ++ complaint ∷ [] }

unfoldable pub lksmith_log_init_file : LogAnswers → Text → Log → Log
lksmith_log_init_file a name s =
    if a.fopen
    then record s { type = file; stream = some (opened name) }
    else to_stderr (complain s)

-- strstr(ty, prefix) == ty
abbrev pub starts_with : Text → Text → Bool
starts_with prefix ty = same_text (take (length prefix) ty) prefix

-- "0x"
abbrev pub hex_prefix : Text
hex_prefix = 48 ∷ 120 ∷ []

-- The cast of an address to lksmith_error_cb_t; 0 is the null pointer.
unfoldable pub cb_at : ℕ → Option ℕ
cb_at addr = if addr == 0 then none else some addr

-- `false` for a result that is not 0.
unfoldable pub lksmith_log_init_cb : LogAnswers → Text → Log → Bool × Log
unfolding cb_at
lksmith_log_init_cb a addr s =
    if starts_with hex_prefix addr
    then (elim (a.strtoull addr) [
      | none ↦ (false, complain s)
      | some cb ↦ (true, record s { type = callback; cb = cb_at cb })
    ])
    else (false, complain s)

-- "file://"
abbrev pub file_prefix : Text
file_prefix = 102 ∷ 105 ∷ 108 ∷ 101 ∷ 58 ∷ 47 ∷ 47 ∷ []

-- "callback://"
abbrev pub callback_prefix : Text
callback_prefix = 99 ∷ 97 ∷ 108 ∷ 108 ∷ 98 ∷ 97 ∷ 99 ∷ 107 ∷ 58 ∷ 47 ∷ 47 ∷ []

-- "syslog", "stderr" and "stdout"
abbrev pub syslog_name : Text
syslog_name = 115 ∷ 121 ∷ 115 ∷ 108 ∷ 111 ∷ 103 ∷ []

abbrev pub stderr_name : Text
stderr_name = 115 ∷ 116 ∷ 100 ∷ 101 ∷ 114 ∷ 114 ∷ []

abbrev pub stdout_name : Text
stdout_name = 115 ∷ 116 ∷ 100 ∷ 111 ∷ 117 ∷ 116 ∷ []

-- The callback branch of lksmith_log_init, after lksmith_log_init_cb.
unfoldable pub callback_set : Bool × Log → Log
callback_set (true, s) = s
callback_set (false, s) = to_stderr s

-- The default is DEFAULT_LKSMITH_LOG_TYPE.
abbrev pub log_target : Option Text → Text
log_target none = stderr_name
log_target (some ty) = ty

unfoldable pub lksmith_log_init : LogAnswers → Log → Log
unfolding lksmith_log_init_file lksmith_log_init_cb callback_set
lksmith_log_init a s =
    let ty = log_target a.env in
    if same_text ty syslog_name
    then record s { type = syslog }
    else (if same_text ty stderr_name
        then to_stderr s
        else (if same_text ty stdout_name
            then record s { type = file; stream = some standard_output }
            else (if starts_with file_prefix ty
                then lksmith_log_init_file a (drop (length file_prefix) ty) s
                else (if starts_with callback_prefix ty
                    then callback_set (lksmith_log_init_cb a (drop (length callback_prefix) ty) s)
                    else to_stderr (complain s)))))

-- The output of one message, with the values of the three globals; a callback gets at most 4095
-- characters.
unfoldable pub log_to : LogType → Option Stream → Option ℕ → ℕ → Text → Log → Outcome Log
log_to uninit stream cb err text s = done s
log_to syslog stream cb err text s = done (record s { lines = s.lines ++ to_syslog text ∷ [] })
log_to file none cb err text s = fault null_deref
log_to file (some f) cb err text s = done (record s { lines = s.lines ++ to_stream f text ∷ [] })
log_to callback stream none err text s = fault null_deref
log_to callback stream (some addr) err text s =
    done (record s { lines = s.lines ++ to_callback addr err (take 4095 text) ∷ [] })

unfoldable pub log_line : ℕ → Text → Log → Outcome Log
unfolding log_to
log_line err text s = log_to s.type s.stream s.cb err text s

-- The test of g_log_type for LKSMITH_LOG_UNINIT.
unfoldable pub log_ready : LogType → LogAnswers → Log → Log
unfolding lksmith_log_init
log_ready uninit a s = lksmith_log_init a s
log_ready syslog a s = s
log_ready file a s = s
log_ready callback a s = s

unfoldable pub lksmith_errora_unlocked : LogAnswers → ℕ → Text → Log → Outcome Log
unfolding log_line log_ready
lksmith_errora_unlocked a err text s = log_line err text (log_ready s.type a s)

-- The same under g_error_lock, and lksmith_error with its arguments in a va_list.
unfoldable pub lksmith_errora : LogAnswers → ℕ → Text → Log → Outcome Log
unfolding lksmith_errora_unlocked
lksmith_errora = lksmith_errora_unlocked

unfoldable pub lksmith_error : LogAnswers → ℕ → Text → Log → Outcome Log
unfolding lksmith_errora
lksmith_error = lksmith_errora

-- "unknown error"
abbrev pub unknown_error : Text
unknown_error = 117 ∷ 110 ∷ 107 ∷ 110 ∷ 111 ∷ 119 ∷ 110 ∷ 32 ∷ 101 ∷ 114 ∷ 114 ∷ 111 ∷ 114 ∷ []

-- `none` for a failure of strerror_r, which writes into a buffer of 4096 characters.
unfoldable pub terror : Option Text → Text
terror none = unknown_error
terror (some message) = message

-- The loop over the frames, each with a newline.
unfoldable pub log_frames : LogAnswers → List Text → Log → Outcome Log
unfolding lksmith_errora_unlocked
log_frames a [] s = done s
log_frames a (frame ∷ frames) s =
    lksmith_errora_unlocked a 0 (frame ++ 10 ∷ []) s >>= λ s'. log_frames a frames s'

unfoldable pub lksmith_errora_with_bt : LogAnswers → ℕ → List Text → Text → Log → Outcome Log
unfolding log_frames
lksmith_errora_with_bt a err frames text s =
    lksmith_errora_unlocked a err text s >>= λ s'. log_frames a frames s'
