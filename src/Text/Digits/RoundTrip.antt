-- ===== src/Text/Digits/RoundTrip.antt =====
-- What `%d` prints, read as an integer.
use poison_trace.Base.{
  ℕ, zero, suc, ◌+◌, ◌-◌, ◌*◌, true, false, ◌&&◌, [], ◌∷◌, leb, ◌==◌, ℤ, pos, negsuc, some, ◌≡◌,
  ◌∙◌, ap, refl, arith, is_nil,
}
use poison_trace.Text.{Str, is_empty, decimal}
use poison_trace.Text.Decimal.{number, is_digits, leads, decimal-IsDecimal}
use poison_trace.Text.Digits.{decimal_int, read_digits, read_natural, negate, big_int}

read_digits-number :
    (s : Str) (acc : ℕ) → is_digits s ≡ true → read_digits acc s ≡ some (number acc s)
unfolding read_digits
read_digits-number [] acc h = refl
read_digits-number (c ∷ s) acc h =
    let digit : (leb 48 c && leb c 57) ≡ true = ground (arith, h) in
    rw digit (read_digits-number s (acc * 10 + (c - 48)) (ground (arith, h)))

read_natural-number :
    (s : Str) → is_digits s ≡ true → is_nil s ≡ false → read_natural s ≡ some (number 0 s)
unfolding read_natural
read_natural-number [] h e = absurd (ground arith)
read_natural-number (c ∷ s) h e = read_digits-number (c ∷ s) 0 h

-- A text of digits has no sign.
big_int-digits :
    (s : Str) → is_digits s ≡ true → is_nil s ≡ false → big_int s ≡ some (pos (number 0 s))
unfolding big_int
big_int-digits [] h e = absurd (ground arith)
big_int-digits (c ∷ s) h e =
    let not_minus : (c == b'-') ≡ false = ground (arith, h) in
    let not_plus : (c == b'+') ≡ false = ground (arith, h) in
    rw (not_minus, not_plus, read_natural-number (c ∷ s) h refl) refl

decimal-not_nil : (n : ℕ) → is_nil (decimal n) ≡ false
unfolding decimal
decimal-not_nil zero = refl
decimal-not_nil (suc n) =
    of_leads (decimal (suc n)) ((decimal-IsDecimal (suc n)).first (omega arith))
  where
    of_leads : (s : Str) → leads s ≡ true → is_nil s ≡ false
    of_leads [] h = absurd (ground arith)
    of_leads (c ∷ s) h = refl

pub big_int-decimal_int : (z : ℤ) → big_int (decimal_int z) ≡ some z
unfolding decimal_int negate big_int
big_int-decimal_int (pos n) =
    let d = decimal-IsDecimal n in
    big_int-digits (decimal n) d.digits (decimal-not_nil n) ∙ ap (λ m. some (pos m)) d.value
big_int-decimal_int (negsuc n) =
    let d = decimal-IsDecimal (suc n) in
    negative (decimal (suc n)) (suc n)
      (read_natural-number (decimal (suc n)) d.digits (decimal-not_nil (suc n)) ∙ ap some d.value)
  where
    negative : (s : Str) (m : ℕ) → read_natural s ≡ some m → big_int (b'-' ∷ s) ≡ some (negate m)
    negative s m h = rw (big_int, h) refl

pub decimal_int-not_empty : (z : ℤ) → is_empty (decimal_int z) ≡ false
unfolding decimal_int
decimal_int-not_empty (pos n) = of_not_nil (decimal n) (decimal-not_nil n)
  where
    of_not_nil : (s : Str) → is_nil s ≡ false → is_empty s ≡ false
    of_not_nil [] h = absurd (ground arith)
    of_not_nil (c ∷ s) h = refl
decimal_int-not_empty (negsuc n) = refl
