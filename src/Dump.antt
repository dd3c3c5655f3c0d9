-- ===== src/Dump.antt =====
-- Printing into a buffer of fixed size, and the dumps of holders and locks (util.c, fwdprintf;
-- lksmith.c, holder_dump and lk_dump). A conversion of printf(3) gives the characters of its argument;
-- the conversions of pointers and numbers are parameters.
pub mod Laws
pub mod Trees
use lksmith.Base.{
  ℕ, zero, suc, ◌+◌, ◌-◌, ◌≡◌, Bool, List, [], ◌∷◌, ◌++◌, Option, none, some, ltb, if◌then◌else◌,
  length, take,
}
use lksmith.Lock.{Text, Holder, Lock}

-- The characters of the buffer before its final NUL, and `*off`.
pub record Buffer : Type 0 where
  pub text : Text
  pub off : ℕ

-- vsnprintf(buf + o, n - o, ...) of the characters `s`: it writes at most n - o - 1 of them and a NUL,
-- and nothing into no space.
unfoldable pub vsnprintf : ℕ → ℕ → Text → Text → Text
vsnprintf n o s text = if ltb o n then take o text ++ take (n - o - 1) s else text

-- `none` is a negative result of vsnprintf.
unfoldable pub fwdprintf : ℕ → Option Text → Buffer → Buffer
unfolding vsnprintf
fwdprintf n none b = b
fwdprintf n (some s) b = record {
  text = vsnprintf n b.off s b.text;
  off = if ltb n (b.off + length s) then n else b.off + length s;
}

abbrev pub comma : Text
comma = 44 ∷ 32 ∷ []

-- The calls of fwdprintf for a list of arguments, each after `prefix`, which then becomes `next`.
unfoldable pub print_each : ℕ → Text → Text → List Text → Buffer → Buffer
unfolding fwdprintf
print_each n prefix next [] b = b
print_each n prefix next (s ∷ ss) b = print_each n next next ss (fwdprintf n (some (prefix ++ s)) b)

-- "{name=", ", bt_frames=[" and "]}"
abbrev pub name_label : Text
name_label = 123 ∷ 110 ∷ 97 ∷ 109 ∷ 101 ∷ 61 ∷ []

abbrev pub frames_label : Text
frames_label = 44 ∷ 32 ∷ 98 ∷ 116 ∷ 95 ∷ 102 ∷ 114 ∷ 97 ∷ 109 ∷ 101 ∷ 115 ∷ 61 ∷ 91 ∷ []

abbrev pub closing : Text
closing = 93 ∷ 125 ∷ []

unfoldable pub holder_dump : ℕ → Holder → Buffer → Buffer
unfolding print_each
holder_dump n holder b =
    let start = fwdprintf n (some (name_label ++ holder.name ++ frames_label)) b in
    fwdprintf n (some closing) (print_each n [] comma holder.bt_frames start)

-- The loop over `lk->holders`.
unfoldable pub dump_holders : ℕ → Text → List Holder → Buffer → Buffer
unfolding holder_dump
dump_holders n prefix [] b = b
dump_holders n prefix (h ∷ hs) b =
    dump_holders n comma hs (holder_dump n h (fwdprintf n (some prefix) b))

-- "lk{ptr=", ", nlock=", ", recursive=", ", sleeper=", ",color=", ", before={" and "}, holders=["
abbrev pub ptr_label : Text
ptr_label = 108 ∷ 107 ∷ 123 ∷ 112 ∷ 116 ∷ 114 ∷ 61 ∷ []

abbrev pub nlock_label : Text
nlock_label = 44 ∷ 32 ∷ 110 ∷ 108 ∷ 111 ∷ 99 ∷ 107 ∷ 61 ∷ []

abbrev pub recursive_label : Text
recursive_label = 44 ∷ 32 ∷ 114 ∷ 101 ∷ 99 ∷ 117 ∷ 114 ∷ 115 ∷ 105 ∷ 118 ∷ 101 ∷ 61 ∷ []

abbrev pub sleeper_label : Text
sleeper_label = 44 ∷ 32 ∷ 115 ∷ 108 ∷ 101 ∷ 101 ∷ 112 ∷ 101 ∷ 114 ∷ 61 ∷ []

abbrev pub color_label : Text
color_label = 44 ∷ 99 ∷ 111 ∷ 108 ∷ 111 ∷ 114 ∷ 61 ∷ []

abbrev pub before_label : Text
before_label = 44 ∷ 32 ∷ 98 ∷ 101 ∷ 102 ∷ 111 ∷ 114 ∷ 101 ∷ 61 ∷ 123 ∷ []

abbrev pub holders_label : Text
holders_label = 125 ∷ 44 ∷ 32 ∷ 104 ∷ 111 ∷ 108 ∷ 100 ∷ 101 ∷ 114 ∷ 115 ∷ 61 ∷ 91 ∷ []

abbrev pub all {ℓ} : {A : Type ℓ} → (A → Text) → List A → List Text
all f [] = []
all f (x ∷ xs) = f x ∷ all f xs

-- `pointer` is the conversion %p, and `number` the conversions %d and %"PRId64".
module _ (pointer number : ℕ → Text) where
  abbrev pub flag : Bool → Text
  flag b = number (if b then 1 else 0)

  abbrev pub lk_header : Lock → Text
  lk_header lk =
      ptr_label
      ++ pointer lk.ptr
      ++ nlock_label
      ++ number lk.props.nlock
      ++ recursive_label
      ++ flag lk.props.recursive
      ++ sleeper_label
      ++ flag lk.props.sleeper
      ++ color_label
      ++ number lk.color
      ++ before_label

  unfoldable pub lk_dump : ℕ → Lock → Buffer → Buffer
  unfolding print_each dump_holders
  lk_dump n lk b =
      let before =
        print_each n [] (32 ∷ []) (all pointer lk.before) (fwdprintf n (some (lk_header lk)) b) in
      fwdprintf n (some closing)
        (dump_holders n [] lk.holders (fwdprintf n (some holders_label) before))
