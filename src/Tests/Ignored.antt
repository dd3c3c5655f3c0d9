-- ===== src/Tests/Ignored.antt =====
-- The ignored frames, over a C library that sorts by insertion and searches from the front.
use lksmith.Base.{
  ℕ, suc, ◌≡◌, refl, ◌↔◌, ◌⊎◌, inl, inr, Bool, true, false, List, [], ◌∷◌, none, some, arith,
  length, if◌then◌else◌, Bool-cases,
}
use lksmith.Code.{ok, err, enomem}
use lksmith.Lock.{Text}
use lksmith.Holders.{same_text}
use lksmith.Holders.Laws.{same_text_iff}
use lksmith.Ignore.Texts.{text_le, InText, AllAbove, IsSorted}
use lksmith.Ignore.{
  init_listed, TextLib, IgnoreMemory, token, strtok_loop, passes, copies, lksmith_init_ignored,
  should_skip_dependency_processing,
}
use lksmith.Ignore.Skip.{listed, Skipped, lksmith_init_ignored_lem, should_skip_iff}
use lksmith.Ignore.Tokens.{tokens, lksmith_init_ignored-separated}

abbrev place : Text → List Text → List Text
place t [] = t ∷ []
place t (u ∷ us) = let rest = place t us in if text_le t u then t ∷ u ∷ us else u ∷ rest

abbrev sort : List Text → List Text
sort [] = []
sort (t ∷ ts) = place t (sort ts)

text_le-total : (s t : Text) → text_le s t ≡ false → text_le t s ≡ true
text_le-total [] t h = cc
text_le-total (c ∷ s) [] h = refl
text_le-total (c ∷ s) (d ∷ t) h = ground (arith, text_le-total s t)

text_le_trans : (s t u : Text) → text_le s t ≡ true → text_le t u ≡ true → text_le s u ≡ true
text_le_trans [] t u h k = refl
text_le_trans (c ∷ s) [] u h k = cc
text_le_trans (c ∷ s) (d ∷ t) [] h k = cc
text_le_trans (c ∷ s) (d ∷ t) (e ∷ u) h k = ground (arith, text_le_trans s t u)

AllAbove-trans : (s t : Text) (us : List Text) → text_le s t ≡ true → AllAbove t us → AllAbove s us
AllAbove-trans s t [] h a = tt
AllAbove-trans s t (u ∷ us) h a = (text_le_trans s t u h a.0, AllAbove-trans s t us h a.1)

AllAbove-place :
    (s t : Text) (us : List Text) → text_le s t ≡ true → AllAbove s us → AllAbove s (place t us)
AllAbove-place s t [] h a = (h, tt)
AllAbove-place s t (u ∷ us) h a = ground (arith, AllAbove-place s t us h a.1)

place-IsSorted : (t : Text) (us : List Text) → IsSorted us → IsSorted (place t us)
place-IsSorted t [] s = (tt, tt)
place-IsSorted t (u ∷ us) s = elim (Bool-cases (text_le t u)) [
  | inl le ↦ rw le ((le, AllAbove-trans t u us le s.0), s)
  | inr gt ↦ rw gt (AllAbove-place u t us (text_le-total t u gt) s.0, place-IsSorted t us s.1)
]

pub sort-IsSorted : (ts : List Text) → IsSorted (sort ts)
sort-IsSorted [] = tt
sort-IsSorted (t ∷ ts) = place-IsSorted t (sort ts) (sort-IsSorted ts)

in_place : (s t : Text) (us : List Text) → InText s (place t us) ↔ ((s ≡ t) ⊎ InText s us)
in_place s t [] = ground arith
in_place s t (u ∷ us) = ground (arith, in_place s t us)

pub in_sort : (s : Text) (ts : List Text) → InText s (sort ts) ↔ InText s ts
in_sort s [] = ground arith
in_sort s (t ∷ ts) = ground (arith, in_place s t (sort ts), in_sort s ts)

length-place : (t : Text) (us : List Text) → length (place t us) ≡ suc (length us)
length-place t [] = refl
length-place t (u ∷ us) = ground (arith, length-place t us)

pub length-sort : (ts : List Text) → length (sort ts) ≡ length ts
length-sort [] = refl
length-sort (t ∷ ts) = omega (arith, length-place t (sort ts), length-sort ts)

abbrev search_text : Text → List Text → Bool
search_text t [] = false
search_text t (u ∷ us) = let rest = search_text t us in if same_text t u then true else rest

pub search_text_iff : (t : Text) (us : List Text) → (search_text t us ≡ true) ↔ InText t us
search_text_iff t [] = ground arith
search_text_iff t (u ∷ us) = ground (arith, same_text_iff t u, search_text_iff t us)

abbrev pub plain_lib : TextLib
plain_lib = record {
  qsort = sort;
  bsearch = search_text;
  fnmatch = same_text;
  qsort-IsSorted = sort-IsSorted;
  in_qsort = in_sort;
  length-qsort = length-sort;
  bsearch_iff = λ t ts s. search_text_iff t ts;
}

abbrev plenty : IgnoreMemory
plenty = record { env_copy = true; array = λ n. true; copy = λ i. true }

-- "m:a"
abbrev env : Text
env = 109 ∷ 58 ∷ 97 ∷ []

lksmith_init_ignored_lem_example :
    let (code, ts) = lksmith_init_ignored plain_lib plenty (some env) in
    ((code ≡ ok)
        × IsSorted ts
        × (length ts ≡ length (listed (some env)))
        × ((t : Text) → InText t ts ↔ InText t (listed (some env)))
      ⊎ (code ≡ err enomem) × (ts ≡ []))
    × (true ≡ true → ((n : ℕ) → true ≡ true) → ((i : ℕ) → true ≡ true) → code ≡ ok)
lksmith_init_ignored_lem_example = lksmith_init_ignored_lem plain_lib plenty (some env)

should_skip_iff_example :
    (should_skip_dependency_processing plain_lib ((97 ∷ []) ∷ (109 ∷ []) ∷ []) [] ((97 ∷ []) ∷ [])
      ≡ true)
    ↔ Skipped plain_lib (listed (some env)) (listed none) ((97 ∷ []) ∷ [])
unfolding lksmith_init_ignored init_listed passes strtok_loop tokens token copies
should_skip_iff_example =
    should_skip_iff plain_lib plenty plenty (some env) none ((97 ∷ []) ∷ (109 ∷ []) ∷ []) []
      ((97 ∷ []) ∷ []) refl refl

lksmith_init_ignored-separated_example :
    let strings : List Text = (109 ∷ []) ∷ (97 ∷ []) ∷ [] in
    (passes (109 ∷ 58 ∷ 97 ∷ 58 ∷ []) ≡ (strings, strings))
    × (passes (109 ∷ 58 ∷ 97 ∷ []) ≡ (strings, strings))
    × (lksmith_init_ignored plain_lib plenty (some (109 ∷ 58 ∷ 97 ∷ 58 ∷ [])) ≡ (ok, sort strings))
    × (lksmith_init_ignored plain_lib plenty (some (109 ∷ 58 ∷ 97 ∷ [])) ≡ (ok, sort strings))
lksmith_init_ignored-separated_example =
    lksmith_init_ignored-separated plain_lib plenty (109 ∷ []) ((97 ∷ []) ∷ []) refl (λ n. refl)
      (λ i. refl)
      ((λ e. cc), (omega arith, omega arith, tt), ((λ e. cc), (omega arith, omega arith, tt), tt))
