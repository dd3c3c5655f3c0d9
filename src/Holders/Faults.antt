-- ===== src/Holders/Faults.antt =====
-- On the faults of lk_holder_remove.
use lksmith.Base.{List, [], ◌∷◌, Ensures, Ensures-bind, if_either}
use lksmith.Lock.{Text, Holder}
use lksmith.Holders.{same_text, unlink, lk_holder_remove}

unlink-Ensures : (name : Text) (hs : List Holder) → Ensures (λ r. Unit {0}) (unlink name hs)
unfolding unlink
unlink-Ensures name [] = tt
unlink-Ensures name (h ∷ hs) =
    if_either (Ensures (λ r. Unit {0})) (same_text name h.name) _ _ tt
      (Ensures-bind (λ r. Unit) (λ r. Unit) (unlink name hs) _ (unlink-Ensures name hs) (λ r u. tt))

pub lk_holder_remove-Ensures :
    (name : Text) (hs : List Holder) → Ensures (λ r. Unit {0}) (lk_holder_remove name hs)
unfolding lk_holder_remove
lk_holder_remove-Ensures name hs =
    Ensures-bind (λ r. Unit) (λ r. Unit) (unlink name hs) _ (unlink-Ensures name hs) (λ r u. tt)
