-- ===== src/Platform.antt =====
-- The files for one platform (linux_platform.c and posix_platform.c).
use lksmith.Base.{
  ℕ, zero, suc, ◌+◌, ◌-◌, ◌%◌, ◌^◌, ◌≤◌, ◌||◌, [], ◌∷◌, ◌++◌, Option, if◌then◌else◌, take, length,
  arith,
}
use lksmith.Lock.{Text}
use lksmith.Holders.{same_text}

-- "thread_"
abbrev pub name_prefix : Text
name_prefix = 116 ∷ 104 ∷ 114 ∷ 101 ∷ 97 ∷ 100 ∷ 95 ∷ []

-- platform_create_thread_name of linux_platform.c: snprintf into `out_len` characters with the final
-- NUL, for the answer of gettid and the conversion %"PRId64".
unfoldable pub linux_thread_name : (ℕ → Text) → ℕ → ℕ → Text
linux_thread_name number out_len tid = take (out_len - 1) (name_prefix ++ number tid)

-- That of posix_platform.c, with g_tid, which is a uint64_t.
unfoldable pub posix_thread_name : (ℕ → Text) → ℕ → ℕ → Text × ℕ
posix_thread_name number out_len g_tid =
    let new_tid = (g_tid + 1) % 2 ^ 64 in
    (take (out_len - 1) (name_prefix ++ number new_tid), new_tid)

abbrev cond_init_name : Text
cond_init_name =
    112 ∷ 116 ∷ 104 ∷ 114 ∷ 101 ∷ 97 ∷ 100 ∷ 95 ∷ 99 ∷ 111 ∷ 110 ∷ 100 ∷ 95 ∷ 105 ∷ 110 ∷ 105 ∷ 116
    ∷ []

abbrev cond_wait_name : Text
cond_wait_name =
    112 ∷ 116 ∷ 104 ∷ 114 ∷ 101 ∷ 97 ∷ 100 ∷ 95 ∷ 99 ∷ 111 ∷ 110 ∷ 100 ∷ 95 ∷ 119 ∷ 97 ∷ 105 ∷ 116
    ∷ []

abbrev cond_timedwait_name : Text
cond_timedwait_name =
    112 ∷ 116 ∷ 104 ∷ 114 ∷ 101 ∷ 97 ∷ 100 ∷ 95 ∷ 99 ∷ 111 ∷ 110 ∷ 100 ∷ 95 ∷ 116 ∷ 105 ∷ 109 ∷ 101
    ∷ 100 ∷ 119 ∷ 97 ∷ 105 ∷ 116 ∷ []

abbrev cond_destroy_name : Text
cond_destroy_name =
    112 ∷ 116 ∷ 104 ∷ 114 ∷ 101 ∷ 97 ∷ 100 ∷ 95 ∷ 99 ∷ 111 ∷ 110 ∷ 100 ∷ 95 ∷ 100 ∷ 101 ∷ 115 ∷ 116
    ∷ 114 ∷ 111 ∷ 121 ∷ []

-- get_dlsym_next, for the answers of dlvsym with "GLIBC_2.3.2" and of dlsym to a name. A failure also
-- prints to stderr.
unfoldable pub linux_dlsym_next : (Text → Option ℕ) → (Text → Option ℕ) → Text → Option ℕ
linux_dlsym_next dlvsym dlsym fname =
    if same_text fname cond_init_name
      || same_text fname cond_wait_name
      || same_text fname cond_timedwait_name
      || same_text fname cond_destroy_name
    then dlvsym fname
    else dlsym fname

unfoldable pub posix_dlsym_next : (Text → Option ℕ) → Text → Option ℕ
posix_dlsym_next dlsym fname = dlsym fname

take-bound : (n : ℕ) (s : Text) → length (take n s) ≤ n
take-bound zero s = omega arith
take-bound (suc n) [] = omega arith
take-bound (suc n) (c ∷ s) = let b = take-bound n s in omega arith

-- A thread name fits with its NUL.
posix_thread_name-bound :
    (number : ℕ → Text) (out_len g_tid : ℕ)
    → length (posix_thread_name number out_len g_tid).0 ≤ out_len - 1
unfolding posix_thread_name
posix_thread_name-bound number out_len g_tid = take-bound (out_len - 1) _

linux_thread_name-bound :
    (number : ℕ → Text) (out_len tid : ℕ)
    → length (linux_thread_name number out_len tid) ≤ out_len - 1
unfolding linux_thread_name
linux_thread_name-bound number out_len tid = take-bound (out_len - 1) _
