-- ===== src/Ignore/Texts.antt =====
-- Lists of strings in the order of strcmp.
use lksmith.Base.{◌≡◌, ◌⊎◌, Bool, true, false, List, [], ◌∷◌, ◌==◌, ltb, if◌then◌else◌}
use lksmith.Lock.{Text}

-- strcmp(s, t) <= 0
abbrev pub text_le : Text → Text → Bool
text_le [] t = true
text_le (c ∷ s) [] = false
text_le (c ∷ s) (d ∷ t) =
    let rest = text_le s t in if ltb c d then true else (if c == d then rest else false)

abbrev pub InText : Text → List Text → Type 0
InText t [] = ⊥
InText t (u ∷ us) = (t ≡ u) ⊎ InText t us

-- The first string is at most every other.
abbrev pub AllAbove : Text → List Text → Type 0
AllAbove t [] = Unit {0}
AllAbove t (u ∷ us) = (text_le t u ≡ true) × AllAbove t us

abbrev pub IsSorted : List Text → Type 0
IsSorted [] = Unit {0}
IsSorted (t ∷ ts) = AllAbove t ts × IsSorted ts
