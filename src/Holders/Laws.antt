-- ===== src/Holders/Laws.antt =====
-- What removing a holder does, and that it reads through a null pointer when there is none.
use lksmith.Base.{◌≡◌, refl, ◌≢◌, ◌↔◌, true, List, [], ◌∷◌, ◌++◌, arith, done, fault, null_deref}
use lksmith.Code.{ok}
use lksmith.Lock.{Text, Holder}
use lksmith.Holders.{same_text, lk_holder_add, unlink, lk_holder_remove}

pub same_text_iff : (s t : Text) → (same_text s t ≡ true) ↔ (s ≡ t)
unfolding same_text
same_text_iff [] [] = (λ e. refl, λ e. refl)
same_text_iff [] (d ∷ t) = ground arith
same_text_iff (c ∷ s) [] = ground arith
same_text_iff (c ∷ s) (d ∷ t) = ground (arith, same_text_iff s t)

-- No holder of the list has the name.
abbrev pub Without : Text → List Holder → Type 0
Without name [] = Unit {0}
Without name (h ∷ holders) = (h.name ≢ name) × Without name holders

unlink-first :
    (xs ys : List Holder) (h : Holder)
    → Without h.name xs
    → unlink h.name (xs ++ h ∷ ys) ≡ done (xs ++ ys)
unfolding unlink
unlink-first [] ys h w = ground (arith, same_text_iff h.name h.name)
unlink-first (x ∷ xs) ys h w = ground (arith, same_text_iff h.name x.name, unlink-first xs ys h w.1)

unlink-absent :
    (name : Text) (xs : List Holder) → Without name xs → unlink name xs ≡ fault null_deref
unfolding unlink
unlink-absent name [] w = refl
unlink-absent name (x ∷ xs) w = ground (arith, same_text_iff name x.name, unlink-absent name xs w.1)

-- Removing a thread's holder takes out the newest one with its name and keeps all others in order.
-- If there is none, the code reads through a null pointer where it means to return -ENOENT.
pub lk_holder_remove_lem :
    (xs ys : List Holder) (h : Holder)
    → Without h.name xs
    → (lk_holder_remove h.name (xs ++ h ∷ ys) ≡ done (ok, xs ++ ys))
      × (lk_holder_remove h.name xs ≡ fault null_deref)
unfolding lk_holder_remove
lk_holder_remove_lem xs ys h w = (rw (unlink-first xs ys h w), rw (unlink-absent h.name xs w))

pub lk_holder_remove-add :
    (h : Holder) (holders : List Holder)
    → lk_holder_remove h.name (lk_holder_add h holders) ≡ done (ok, holders)
unfolding lk_holder_add
lk_holder_remove-add h holders = (lk_holder_remove_lem [] holders h tt).0
