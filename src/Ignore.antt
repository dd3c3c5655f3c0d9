-- ===== src/Ignore.antt =====
-- Frames that switch the order check off (lksmith.c, compare_strings, lksmith_init_ignored and
-- should_skip_dependency_processing). A string is the list of its characters. qsort(3), bsearch(3)
-- and fnmatch(3) are parameters.
pub mod Texts
pub mod Skip
pub mod Tokens
use lksmith.Base.{
  ℕ, zero, suc, ◌+◌, ◌≡◌, ◌↔◌, Bool, true, false, not, List, [], ◌∷◌, ◌++◌, Option, none, some,
  ◌==◌, drop, length, if◌then◌else◌, ◌||◌,
}
use lksmith.Code.{Code, ok, err, enomem}
use lksmith.Lock.{Text}
use Texts.{InText, IsSorted}

-- What is used of the C library. fnmatch is nonzero in C where it is `false` here.
pub record TextLib : Type 0 where
  pub qsort : List Text → List Text
  pub bsearch : Text → List Text → Bool
  pub fnmatch : Text → Text → Bool
  pub qsort-IsSorted : (ts : List Text) → IsSorted (qsort ts)
  pub in_qsort : (t : Text) (ts : List Text) → InText t (qsort ts) ↔ InText t ts
  pub length-qsort : (ts : List Text) → length (qsort ts) ≡ length ts
  pub bsearch_iff : (t : Text) (ts : List Text) → IsSorted ts → (bsearch t ts ≡ true) ↔ InText t ts

-- The string that strtok_r has read so far, if it is not empty.
unfoldable pub token : Text → List Text → List Text
token [] ts = ts
token (c ∷ s) ts = (c ∷ s) ∷ ts

-- The loop over the strings that strtok_r finds with the delimiter ":", from a place of a buffer on where
-- `read` was read, up to the null character: the strings, and the buffer with a null character in
-- place of the delimiter behind each.
unfoldable pub strtok_loop : Text → Text → List Text × Text
unfolding token
strtok_loop read [] = (token read [], [])
strtok_loop read (c ∷ s) =
    let (skipped, skipped_buf) = strtok_loop [] s in
    let (others, others_buf) = strtok_loop (read ++ c ∷ []) s in
    let delimiter = if length read == 0 then c else 0 in
    if c == 0
    then (token read [], c ∷ s)
    else (if c == 58
        then (token read skipped, delimiter ∷ skipped_buf)
        else (others, c ∷ others_buf))

-- A string as a buffer holds it, and the buffer `dst` after strcpy.
abbrev pub stored : Text → Text
stored s = s ++ 0 ∷ []

abbrev pub strcpy : Text → Text → Text
strcpy dst src = stored src ++ drop (length src + 1) dst

-- The strings that the first loop counts, for the length of the array, and those that the second
-- copies into it.
unfoldable pub passes : Text → List Text × List Text
unfolding strtok_loop
passes env =
    let (counted, ignored) = strtok_loop [] (stored env) in
    (counted, (strtok_loop [] (strcpy ignored env)).0)

-- What malloc answers: for strdup of the variable, for calloc of an array of a length, and for strdup of
-- the string with an index.
pub record IgnoreMemory : Type 0 where
  pub env_copy : Bool
  pub array : ℕ → Bool
  pub copy : ℕ → Bool

-- The loop that copies the strings from index `i` on; `false` if it stops for lack of memory.
unfoldable pub copies : (ℕ → Bool) → ℕ → List Text → Bool
copies copy i [] = true
copies copy i (t ∷ ts) = let rest = copies copy (i + 1) ts in if copy i then rest else false

module _ (C : TextLib) where
  -- lksmith_init_ignored for a variable that is set, with the strings of the two loops.
  unfoldable pub init_listed : IgnoreMemory → List Text × List Text → Code × List Text
  unfolding copies
  init_listed mem (counted, copied) =
      if not mem.env_copy
      then (err enomem, [])
      else (if not (mem.array (length counted))
          then (err enomem, [])
          else (if copies mem.copy 0 copied then (ok, C.qsort copied) else (err enomem, [])))

  -- The code, with `*out` and `*out_len` on success.
  unfoldable pub lksmith_init_ignored : IgnoreMemory → Option Text → Code × List Text
  unfolding init_listed passes
  lksmith_init_ignored mem none = (ok, [])
  lksmith_init_ignored mem (some env) = init_listed mem (passes env)

  -- The inner loop: some pattern matches the frame.
  pub matches_any : List Text → Text → Bool
  matches_any [] frame = false
  matches_any (p ∷ patterns) frame =
      let rest = matches_any patterns frame in if C.fnmatch p frame then true else rest

  -- The loop over `bt_frames`, with g_ignored_frames and g_ignored_frame_patterns.
  unfoldable pub should_skip_dependency_processing : List Text → List Text → List Text → Bool
  unfolding matches_any
  should_skip_dependency_processing ignored patterns [] = false
  should_skip_dependency_processing ignored patterns (frame ∷ frames) =
      let rest = should_skip_dependency_processing ignored patterns frames in
      if C.bsearch frame ignored then true else (if matches_any patterns frame then true else rest)
