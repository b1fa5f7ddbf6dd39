-- ===== src/Text/Digits.antt =====
-- `unicode.IsDigit` over the characters of a UTF-8 text, and `%d` for integers.
pub mod RoundTrip
use poison_trace.Base.{
  ℕ, zero, suc, ◌+◌, ◌-◌, ◌*◌, Bool, true, false, ◌&&◌, List, [], ◌∷◌, leb, ◌==◌, if◌then◌else◌, ℤ,
  pos, negsuc, Option, none, some, any,
}
use poison_trace.Text.{Str, decimal}

-- The zeros of the runs of ten decimal digits in Unicode 15 (category Nd).
abbrev digit_zeros : List ℕ
digit_zeros =
    0x30 ∷ 0x660 ∷ 0x6F0 ∷ 0x7C0 ∷ 0x966 ∷ 0x9E6 ∷ 0xA66 ∷ 0xAE6 ∷ 0xB66 ∷ 0xBE6 ∷ 0xC66 ∷ 0xCE6
    ∷ 0xD66 ∷ 0xDE6 ∷ 0xE50 ∷ 0xED0 ∷ 0xF20 ∷ 0x1040 ∷ 0x1090 ∷ 0x17E0 ∷ 0x1810 ∷ 0x1946 ∷ 0x19D0
    ∷ 0x1A80 ∷ 0x1A90 ∷ 0x1B50 ∷ 0x1BB0 ∷ 0x1C40 ∷ 0x1C50 ∷ 0xA620 ∷ 0xA8D0 ∷ 0xA900 ∷ 0xA9D0
    ∷ 0xA9F0 ∷ 0xAA50 ∷ 0xABF0 ∷ 0xFF10 ∷ 0x104A0 ∷ 0x10D30 ∷ 0x11066 ∷ 0x110F0 ∷ 0x11136 ∷ 0x111D0
    ∷ 0x112F0 ∷ 0x11450 ∷ 0x114D0 ∷ 0x11650 ∷ 0x116C0 ∷ 0x11730 ∷ 0x118E0 ∷ 0x11950 ∷ 0x11C50
    ∷ 0x11D50 ∷ 0x11DA0 ∷ 0x11F50 ∷ 0x16A60 ∷ 0x16AC0 ∷ 0x16B50 ∷ 0x1D7CE ∷ 0x1D7D8 ∷ 0x1D7E2
    ∷ 0x1D7EC ∷ 0x1D7F6 ∷ 0x1E140 ∷ 0x1E2F0 ∷ 0x1E4F0 ∷ 0x1E950 ∷ 0x1FBF0 ∷ []

-- `unicode.IsDigit(r)`.
is_digit_rune : ℕ → Bool
is_digit_rune r = any (λ z. leb z r && leb r (z + 9)) digit_zeros

is_continuation : ℕ → Bool
is_continuation b = leb 0x80 b && leb b 0xBF

-- The bytes of the digit that starts a text; 0 if it starts with no digit, or with no character.
digit_width : Str → ℕ
unfolding is_digit_rune is_continuation
digit_width [] = 0
digit_width (a ∷ s) = if leb 48 a && leb a 57 then 1 else wide s
  where
    quad : ℕ → ℕ → ℕ → ℕ
    quad b c d =
        let r = ((a - 0xF0) * 0x40000) + ((b - 0x80) * 0x1000) + ((c - 0x80) * 0x40) + (d - 0x80) in
        if leb 0xF0 a && leb a 0xF4 && leb 0x10000 r && is_digit_rune r then 4 else 0

    triple : ℕ → ℕ → Bool
    triple b c =
        let r = ((a - 0xE0) * 0x1000) + ((b - 0x80) * 0x40) + (c - 0x80) in
        leb 0xE0 a && leb a 0xEF && leb 0x800 r && is_digit_rune r

    pair : ℕ → Bool
    pair b = let r = ((a - 0xC0) * 0x40) + (b - 0x80) in leb 0xC2 a && leb a 0xDF && is_digit_rune r

    wide : Str → ℕ
    wide [] = 0
    wide (b ∷ []) = if is_continuation b && pair b then 2 else 0
    wide (b ∷ c ∷ []) =
        if is_continuation b && pair b
        then 2
        else if is_continuation b && is_continuation c && triple b c
        then 3
        else 0
    wide (b ∷ c ∷ d ∷ t) =
        if is_continuation b && pair b
        then 2
        else if is_continuation b && is_continuation c && triple b c
        then 3
        else if is_continuation b && is_continuation c && is_continuation d
        then quad b c d
        else 0

digits_from : ℕ → Str → Bool
digits_from skip [] = true
digits_from (suc skip) (c ∷ s) = digits_from skip s
digits_from zero (c ∷ s) = elim (digit_width (c ∷ s)) [
  | zero ↦ false
  | suc skip ↦ digits_from skip s
]

-- `for _, r := range s { if !unicode.IsDigit(r) { return false } }`.
unfoldable pub all_digits : Str → Bool
unfolding digits_from digit_width
all_digits s = digits_from 0 s

-- `%d`.
unfoldable pub decimal_int : ℤ → Str
decimal_int (pos n) = decimal n
decimal_int (negsuc n) = b'-' ∷ decimal (suc n)

read_digits : ℕ → Str → Option ℕ
read_digits acc [] = some acc
read_digits acc (c ∷ s) =
    let rest = read_digits (acc * 10 + (c - 48)) s in if leb 48 c && leb c 57 then rest else none

read_natural : Str → Option ℕ
unfolding read_digits
read_natural [] = none
read_natural (c ∷ s) = read_digits 0 (c ∷ s)

negate : ℕ → ℤ
negate zero = pos 0
negate (suc n) = negsuc n

-- `new(big.Int).SetString(s, 10)`: a sign, and at least one ASCII digit.
unfoldable pub big_int : Str → Option ℤ
unfolding read_natural negate
big_int [] = none
big_int (c ∷ s) =
    if c == b'-'
    then elim (read_natural s) [ none ↦ none | some n ↦ some (negate n) ]
    else if c == b'+'
    then elim (read_natural s) [ none ↦ none | some n ↦ some (pos n) ]
    else elim (read_natural (c ∷ s)) [ none ↦ none | some n ↦ some (pos n) ]
