-- ===== src/Text/Quote.antt =====
-- The verb `%q` of `fmt`. Bytes from 128 on stand for text that can be printed, which is kept.
use poison_trace.Base.{ℕ, ◌/◌, ◌%◌, ◌+◌, ltb, ◌==◌, ◌||◌, [], ◌∷◌, ◌++◌, if◌then◌else◌}
use poison_trace.Text.{Str, codes}

hex_digit : ℕ → ℕ
hex_digit n = if ltb n 10 then b'0' + n else b'a' + (n % 10)

escape : ℕ → Str
unfolding hex_digit
escape c =
    if c == 34 || c == 92
    then 92 ∷ c ∷ []
    else if c == 7
    then codes "\\a"
    else if c == 8
    then codes "\\b"
    else if c == 12
    then codes "\\f"
    else if c == 10
    then codes "\\n"
    else if c == 13
    then codes "\\r"
    else if c == 9
    then codes "\\t"
    else if c == 11
    then codes "\\v"
    else if ltb c 32 || c == 127
    then codes "\\x" ++ (hex_digit (c / 16) ∷ hex_digit (c % 16) ∷ [])
    else c ∷ []

escape_all : Str → Str
unfolding escape
escape_all [] = []
escape_all (c ∷ s) = escape c ++ escape_all s

unfoldable pub quote : Str → Str
unfolding escape_all
quote s = 34 ∷ (escape_all s ++ (34 ∷ []))
