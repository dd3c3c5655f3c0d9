-- ===== src/Log/Laws.antt =====
-- A message is written once, with its backtrace behind it, to the target that was chosen first.
use lksmith.Base.{
  ℕ, ◌≡◌, ◌⊎◌, List, [], ◌∷◌, ◌++◌, Option, some, take, done, none, length, drop, inl, inr, map,
}
use lksmith.Lock.{Text}
use lksmith.Log.{
  LogType, syslog, file, callback, Stream, Line, to_syslog, to_stream, to_callback, Log, LogAnswers,
  lksmith_errora_with_bt, callback_prefix, log_target,
}

-- A chosen target that is set up, from the three globals.
abbrev pub TargetOf : LogType → Option Stream → Option ℕ → Type 0
TargetOf type stream cb =
    (type ≡ syslog)
    ⊎ ((type ≡ file) × ((f : Stream) × (stream ≡ some f)))
    ⊎ ((type ≡ callback) × ((addr : ℕ) × (cb ≡ some addr)))

abbrev pub Target : Log → Type 0
Target s = TargetOf s.type s.stream s.cb

-- How the target gets a message.
abbrev pub line_of :
    (type : LogType) (stream : Option Stream) (cb : Option ℕ)
    → TargetOf type stream cb
    → ℕ
    → Text
    → Line
line_of type stream cb (inl e) err text = to_syslog text
line_of type stream cb (inr (inl (e, (f, g)))) err text = to_stream f text
line_of type stream cb (inr (inr (e, (addr, g)))) err text = to_callback addr err (take 4095 text)

abbrev pub line : ℕ → Text → (s : Log) → Target s → Line
line err text s p = line_of s.type s.stream s.cb p err text

-- The target is a callback, and the callback is null.
abbrev pub NullCb : Log → Type 0
NullCb s = (s.type ≡ callback) × (s.cb ≡ none)

abbrev Chosen : LogAnswers → Text → Log → Type 0
Chosen a addr s = Target s ⊎ NullCb s × (a.strtoull addr ≡ some 0)

-- What follows "callback://" in LKSMITH_LOG.
abbrev pub cb_address : LogAnswers → Text
cb_address a = drop (length callback_prefix) (log_target a.env)

abbrev pub frame_lines : List Text → (s : Log) → Target s → List Line
frame_lines frames s p = map (λ frame. line 0 (frame ++ 10 ∷ []) s p) frames

-- The message once and then each frame, both to the target of `s`; nothing else changes.
abbrev pub Logs : LogAnswers → ℕ → List Text → Text → Log → Log → Type 0
Logs a err frames text s s' =
    (p : Target s') × (lksmith_errora_with_bt a err frames text s
      ≡ done (record s' { lines = s'.lines ++ line err text s' p ∷ frame_lines frames s' p }))
