-- ===== src/Text/Trim.antt =====
-- `strings.TrimSpace`: the space characters of Unicode, as their UTF-8 bytes, are cut at both ends.
use poison_trace.Base.{ℕ, zero, suc, Bool, ◌&&◌, ◌||◌, [], ◌∷◌, reverse, leb, ◌==◌, if◌then◌else◌}
use poison_trace.Text.{Str, is_empty}

is_ascii_space : ℕ → Bool
is_ascii_space c = c == 32 || (leb 9 c && leb c 13)

-- U+0085 and U+00A0.
is_space_pair : ℕ → ℕ → Bool
is_space_pair a b = a == 0xC2 && (b == 0x85 || b == 0xA0)

-- U+1680, U+2000 to U+200A, U+2028, U+2029, U+202F, U+205F and U+3000.
is_space_triple : ℕ → ℕ → ℕ → Bool
is_space_triple a b c =
    (a == 0xE1 && b == 0x9A && c == 0x80)
    || (a == 0xE2
        && b == 0x80
        && ((leb 0x80 c && leb c 0x8A) || c == 0xA8 || c == 0xA9 || c == 0xAF))
    || (a == 0xE2 && b == 0x81 && c == 0x9F)
    || (a == 0xE3 && b == 0x80 && c == 0x80)

-- How many bytes the space that starts a text has; 0 if none does.
leading_space : Str → ℕ
unfolding is_ascii_space is_space_pair is_space_triple
leading_space [] = 0
leading_space (a ∷ []) = if is_ascii_space a then 1 else 0
leading_space (a ∷ b ∷ []) = if is_ascii_space a then 1 else if is_space_pair a b then 2 else 0
leading_space (a ∷ b ∷ c ∷ s) =
    if is_ascii_space a
    then 1
    else if is_space_pair a b
    then 2
    else if is_space_triple a b c
    then 3
    else 0

-- The same at the end, on the reversed text.
trailing_space : Str → ℕ
unfolding is_ascii_space is_space_pair is_space_triple
trailing_space [] = 0
trailing_space (a ∷ []) = if is_ascii_space a then 1 else 0
trailing_space (a ∷ b ∷ []) = if is_ascii_space a then 1 else if is_space_pair b a then 2 else 0
trailing_space (a ∷ b ∷ c ∷ s) =
    if is_ascii_space a
    then 1
    else if is_space_pair b a
    then 2
    else if is_space_triple c b a
    then 3
    else 0

-- Cuts spaces off the front; `skip` bytes of the current space are left to drop.
strip : (Str → ℕ) → ℕ → Str → Str
strip width skip [] = []
strip width (suc skip) (c ∷ s) = strip width skip s
strip width zero (c ∷ s) = elim (width (c ∷ s)) [ zero ↦ c ∷ s | suc skip ↦ strip width skip s ]

unfoldable pub trim_space : Str → Str
unfolding leading_space trailing_space strip
trim_space s = reverse (strip trailing_space 0 (reverse (strip leading_space 0 s)))

-- `strings.TrimSpace(s) == ""`.
unfoldable pub is_blank : Str → Bool
unfolding trim_space
is_blank s = is_empty (trim_space s)
