-- ===== src/Text.antt =====
-- Go's `string` as its bytes, with what the program uses of the package `strings`: comparison,
-- `TrimSpace`, `HasPrefix`, `Contains`, `Join`. A `map[string]V` is an association list.
pub mod Case
pub mod Decimal
pub mod Digits
pub mod Equality
pub mod Order
pub mod Sort
pub mod Trim
pub mod Quote
use Prim.Native.Char.{code}
use Prim.Native.String.{String}
use poison_trace.Base.{
  ℕ, zero, suc, ◌+◌, ◌/◌, ◌%◌, Bool, true, false, ◌&&◌, ◌||◌, List, [], ◌∷◌, ◌++◌, reverse, ltb,
  ◌==◌, if◌then◌else◌,
}

-- A string is a list of bytes.
abbrev pub Str : Type 0
Str = List ℕ

-- The bytes of a literal; every literal of the development is ASCII.
abbrev pub codes : String → Str
codes String.[] = []
codes (String.◌∷◌ c s) = code c ∷ codes s

-- `a == b`.
unfoldable pub str_eq : Str → Str → Bool
str_eq [] [] = true
str_eq [] (y ∷ b) = false
str_eq (x ∷ a) [] = false
str_eq (x ∷ a) (y ∷ b) = x == y && str_eq a b

-- `a < b`, bytewise.
unfoldable pub str_lt : Str → Str → Bool
str_lt a [] = false
str_lt [] (y ∷ b) = true
str_lt (x ∷ a) (y ∷ b) = ltb x y || (x == y && str_lt a b)

-- `s == ""`.
abbrev pub is_empty : Str → Bool
is_empty [] = true
is_empty (c ∷ s) = false

-- `strings.HasPrefix(s, prefix)`.
unfoldable pub has_prefix : Str → Str → Bool
has_prefix s [] = true
has_prefix [] (c ∷ p) = false
has_prefix (d ∷ s) (c ∷ p) = d == c && has_prefix s p

-- `strings.Contains(s, sub)`.
unfoldable pub contains : Str → Str → Bool
unfolding has_prefix
contains [] sub = is_empty sub
contains (c ∷ s) sub = has_prefix (c ∷ s) sub || contains s sub

-- `strings.Join(parts, sep)`.
unfoldable pub join : Str → List Str → Str
join sep [] = []
join sep (s ∷ []) = s
join sep (s ∷ t ∷ rest) = s ++ (sep ++ join sep (t ∷ rest))

-- `strings.Split(s, sep)` for a separator of one byte; `word` is the part read so far, reversed.
split_from : ℕ → Str → Str → List Str
split_from sep word [] = reverse word ∷ []
split_from sep word (c ∷ s) =
    let last = reverse word ∷ split_from sep [] s in
    let longer = split_from sep (c ∷ word) s in if c == sep then last else longer

unfoldable pub split : ℕ → Str → List Str
unfolding split_from
split sep s = split_from sep [] s

-- `strings.TrimPrefix` once the prefix is known to be there.
abbrev pub drop : ℕ → Str → Str
drop zero s = s
drop (suc n) [] = []
drop (suc n) (c ∷ s) = drop n s

-- The digits of `%d` for a number that is not negative; more fuel than digits is given.
decimal_digits : ℕ → ℕ → Str → Str
decimal_digits zero n out = out
decimal_digits (suc fuel) n out =
    let rest = decimal_digits fuel (n / 10) ((48 + n % 10) ∷ out) in
    if ltb n 10 then (48 + n) ∷ out else rest

unfoldable pub decimal : ℕ → Str
unfolding decimal_digits
decimal n = decimal_digits (n + 1) n []
