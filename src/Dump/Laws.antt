-- ===== src/Dump/Laws.antt =====
-- A dump into a buffer is the front of the whole text, and never runs past the buffer.
use lksmith.Base.{
  take_all, ℕ, zero, suc, ◌-◌, ◌<◌, ◌≤◌, ◌≡◌, refl, sym, ◌∙◌, ap, List, [], ◌∷◌, ◌++◌, some, arith,
  subst, ltb, if◌then◌else◌, length, take, length-append, append-nil, append_assoc, dec_lt,
}
use lksmith.Lock.{Text, Holder, Lock}
use lksmith.Dump.{
  Buffer, vsnprintf, fwdprintf, comma, print_each, name_label, frames_label, closing, holder_dump,
  dump_holders, holders_label, all, lk_header, lk_dump,
}

take-append :
    (k : ℕ) (xs ys : Text) → length xs ≤ k → take k (xs ++ ys) ≡ xs ++ take (k - length xs) ys
take-append k [] ys l = let e : k ≡ k - 0 = omega arith in ap (λ j. take j ys) e
take-append zero (x ∷ xs) ys l = absurd (omega arith)
take-append (suc k) (x ∷ xs) ys l =
    let e : suc k - suc (length xs) ≡ k - length xs = omega arith in
    rw e (ap (◌∷◌ x) (take-append k xs ys (omega arith)))

take-append_front : (k : ℕ) (xs ys : Text) → k ≤ length xs → take k (xs ++ ys) ≡ take k xs
take-append_front zero xs ys l = refl
take-append_front (suc k) [] ys l = absurd (omega arith)
take-append_front (suc k) (x ∷ xs) ys l = ap (◌∷◌ x) (take-append_front k xs ys (omega arith))

-- The buffer of `n` characters got the text `whole`, as far as it fits.
abbrev pub Shows : ℕ → Text → Buffer → Type 0
Shows n whole b =
    (b.text ≡ take (n - 1) whole) × (b.off ≡ (if ltb n (length whole) then n else length whole))

vsnprintf-room :
    (n o : ℕ) (s text : Text) → o < n → vsnprintf n o s text ≡ take o text ++ take (n - o - 1) s
unfolding vsnprintf
vsnprintf-room n o s text l = ground arith

vsnprintf-full : (n o : ℕ) (s text : Text) → n ≤ o → vsnprintf n o s text ≡ text
unfolding vsnprintf
vsnprintf-full n o s text l = ground arith

fwdprintf-Shows :
    (n : ℕ) (whole s : Text) (b : Buffer)
    → 0 < n
    → Shows n whole b
    → Shows n (whole ++ s) (fwdprintf n (some s) b)
unfolding fwdprintf
fwdprintf-Shows n whole s b pos (text, off) = (
  elim (dec_lt (length whole) n) [
    | yes l ↦
        let o : b.off ≡ length whole = off ∙ ground arith in
        let t : b.text ≡ whole = text ∙ take_all (n - 1) whole (omega arith) in
        let k : n - length whole - 1 ≡ n - 1 - length whole = omega arith in
        rw
          (
            o,
            t,
            vsnprintf-room n (length whole) s whole l,
            take_all (length whole) whole (omega arith),
            k,
          )
          (sym (take-append (n - 1) whole s (omega arith)))
    | no g ↦
        let o : b.off ≡ n = off ∙ ground arith in
        rw
          (
            o,
            vsnprintf-full n n s b.text (omega arith),
            take-append_front (n - 1) whole s (omega arith),
          )
          text
  ],
  ground (arith, off, length-append whole s),
)

-- The texts that the dumps print.
abbrev pub each : Text → Text → List Text → Text
each prefix next [] = []
each prefix next (s ∷ ss) = (prefix ++ s) ++ each next next ss

abbrev pub holder_text : Holder → Text
holder_text h = (name_label ++ h.name ++ frames_label) ++ (each [] comma h.bt_frames ++ closing)

abbrev pub holders_text : Text → List Holder → Text
holders_text prefix [] = []
holders_text prefix (h ∷ hs) = prefix ++ (holder_text h ++ holders_text comma hs)

module _ (n : ℕ) (pos : 0 < n) where
  abbrev Extends : Text → Buffer → Buffer → Type 0
  Extends s b b' = (whole : Text) → Shows n whole b → Shows n (whole ++ s) b'

  Extends-one : (s : Text) (b : Buffer) → Extends s b (fwdprintf n (some s) b)
  Extends-one s b whole p = fwdprintf-Shows n whole s b pos p

  Extends-both :
      (s u : Text) (b c d : Buffer) → Extends s b c → Extends u c d → Extends (s ++ u) b d
  Extends-both s u b c d p q whole h =
      subst (λ z. Shows n z d) (append_assoc whole s u) (q (whole ++ s) (p whole h))

  Extends-each :
      (prefix next : Text) (ss : List Text) (b : Buffer)
      → Extends (each prefix next ss) b (print_each n prefix next ss b)
  unfolding print_each
  Extends-each prefix next [] b = λ whole p. subst (λ z. Shows n z b) (sym (append-nil whole)) p
  Extends-each prefix next (s ∷ ss) b =
      let c = fwdprintf n (some (prefix ++ s)) b in
      Extends-both (prefix ++ s) (each next next ss) b c (print_each n next next ss c)
        (Extends-one (prefix ++ s) b) (Extends-each next next ss c)

  Extends-holder : (h : Holder) (b : Buffer) → Extends (holder_text h) b (holder_dump n h b)
  unfolding holder_dump
  Extends-holder h b =
      let c = fwdprintf n (some (name_label ++ h.name ++ frames_label)) b in
      let d = print_each n [] comma h.bt_frames c in
      Extends-both (name_label ++ h.name ++ frames_label) (each [] comma h.bt_frames ++ closing) b c
        _ (Extends-one (name_label ++ h.name ++ frames_label) b)
        (Extends-both (each [] comma h.bt_frames) closing c d _
          (Extends-each [] comma h.bt_frames c) (Extends-one closing d))

  Extends-holders :
      (prefix : Text) (hs : List Holder) (b : Buffer)
      → Extends (holders_text prefix hs) b (dump_holders n prefix hs b)
  unfolding dump_holders
  Extends-holders prefix [] b = λ whole p. subst (λ z. Shows n z b) (sym (append-nil whole)) p
  Extends-holders prefix (h ∷ hs) b =
      let c = fwdprintf n (some prefix) b in
      let d = holder_dump n h c in
      Extends-both prefix (holder_text h ++ holders_text comma hs) b c _ (Extends-one prefix b) (
        Extends-both (holder_text h) (holders_text comma hs) c d _ (Extends-holder h c)
          (Extends-holders comma hs d))

  module _ (pointer number : ℕ → Text) where
    abbrev pub lk_text : Lock → Text
    lk_text lk =
        lk_header pointer number lk
        ++ (each [] (32 ∷ []) (all pointer lk.before)
            ++ (holders_label ++ (holders_text [] lk.holders ++ closing)))

    -- lk_dump appends the text of the lock to what the buffer shows: the buffer then has the first
    -- n - 1 characters of all that was printed, and `*off` is the length of all that was printed, but
    -- at most n. (For a buffer of n > 0 characters in which this holds already, such as an empty one.)
    pub lk_dump-Shows :
        (lk : Lock) (b : Buffer) (whole : Text)
        → Shows n whole b
        → Shows n (whole ++ lk_text lk) (lk_dump pointer number n lk b)
    unfolding lk_dump
    lk_dump-Shows lk b =
        let c = fwdprintf n (some (lk_header pointer number lk)) b in
        let d = print_each n [] (32 ∷ []) (all pointer lk.before) c in
        let e = fwdprintf n (some holders_label) d in
        let f = dump_holders n [] lk.holders e in
        let befores = each [] (32 ∷ []) (all pointer lk.before) in
        let holders = holders_text [] lk.holders in
        Extends-both (lk_header pointer number lk)
          (befores ++ (holders_label ++ (holders ++ closing))) b c _
          (Extends-one (lk_header pointer number lk) b)
          (Extends-both befores (holders_label ++ (holders ++ closing)) c d _
            (Extends-each [] (32 ∷ []) (all pointer lk.before) c)
            (Extends-both holders_label (holders ++ closing) d e _ (Extends-one holders_label d) (
              Extends-both holders closing e f _ (Extends-holders [] lk.holders e)
                (Extends-one closing f))))
