-- ===== src/Holders.antt =====
-- The list of holders of a lock (lksmith.c, lk_holder_add and lk_holder_remove), newest first.
pub mod Laws
pub mod Faults
use lksmith.Base.{
  ℕ, Bool, true, false, List, [], ◌∷◌, ◌==◌, ◌&&◌, if◌then◌else◌, Outcome, done, fault, null_deref,
  ◌>>=◌,
}
use lksmith.Code.{Code, ok}
use lksmith.Lock.{Text, Holder}

-- !strcmp(s, t)
unfoldable pub same_text : Text → Text → Bool
same_text [] [] = true
same_text [] (d ∷ t) = false
same_text (c ∷ s) [] = false
same_text (c ∷ s) (d ∷ t) = (c == d) && same_text s t

unfoldable pub lk_holder_add : Holder → List Holder → List Holder
lk_holder_add holder holders = holder ∷ holders

-- The walk along the links to the first holder with the name, and its removal. At the end of the
-- list the loop stops with `*holder` null; the test that follows is of `holder`, which never is
-- null, so the code goes on to read `(*holder)->next`.
pub unlink : Text → List Holder → Outcome (List Holder)
unlink name [] = fault null_deref
unlink name (h ∷ holders) =
    let rest = unlink name holders in
    if same_text name h.name then done holders else (rest >>= λ hs. done (h ∷ hs))

-- The name is that of the calling thread, `tls->name`.
unfoldable pub lk_holder_remove : Text → List Holder → Outcome (Code × List Holder)
unfolding unlink
lk_holder_remove name holders = unlink name holders >>= λ hs. done (ok, hs)
