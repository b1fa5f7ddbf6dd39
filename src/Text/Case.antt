-- ===== src/Text/Case.antt =====
-- `strings.ToLower` and `strings.EqualFold` as far as a comparison with an ASCII text can see: the
-- ASCII letters, and the letters beyond ASCII whose lower case, or whose folding, is an ASCII letter.
use poison_trace.Base.{ℕ, zero, suc, ◌+◌, Bool, false, ◌&&◌, [], ◌∷◌, leb, ◌==◌, if◌then◌else◌}
use poison_trace.Text.{Str, str_eq}

lower_byte : ℕ → ℕ
lower_byte c = if leb b'A' c && leb c b'Z' then c + 32 else c

-- The character of two bytes that starts a text.
starts_pair : ℕ → ℕ → Str → Bool
starts_pair a b [] = false
starts_pair a b (x ∷ []) = false
starts_pair a b (x ∷ y ∷ s) = x == a && y == b

-- The Kelvin sign, U+212A.
starts_kelvin : Str → Bool
starts_kelvin [] = false
starts_kelvin (x ∷ []) = false
starts_kelvin (x ∷ y ∷ []) = false
starts_kelvin (x ∷ y ∷ z ∷ s) = x == 0xE2 && y == 0x84 && z == 0xAA

-- Each character becomes one; `skip` bytes of the current one are left. The character of the bytes
-- `a` and `b` becomes `letter`.
lower_from : ℕ → ℕ → ℕ → ℕ → Str → Str
unfolding lower_byte starts_pair starts_kelvin
lower_from a b letter skip [] = []
lower_from a b letter (suc skip) (c ∷ s) = lower_from a b letter skip s
lower_from a b letter zero (c ∷ s) =
    let kelvin = b'k' ∷ lower_from a b letter 2 s in
    let special = letter ∷ lower_from a b letter 1 s in
    let plain = lower_byte c ∷ lower_from a b letter 0 s in
    if starts_kelvin (c ∷ s) then kelvin else if starts_pair a b (c ∷ s) then special else plain

-- The lower case of U+0130, the capital I with a dot, is `i`.
unfoldable pub to_lower : Str → Str
unfolding lower_from
to_lower s = lower_from 0xC4 0xB0 b'i' 0 s

-- The long s, U+017F, folds to `s`.
fold_case : Str → Str
unfolding lower_from
fold_case s = lower_from 0xC5 0xBF b's' 0 s

-- `strings.EqualFold(s, t)` for an ASCII text `t`.
unfoldable pub equal_fold : Str → Str → Bool
unfolding fold_case
equal_fold s t = str_eq (fold_case s) (fold_case t)
