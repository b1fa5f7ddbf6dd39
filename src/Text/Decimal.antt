-- ===== src/Text/Decimal.antt =====
-- Texts of decimal digits: the number that they stand for, and that of `%d`.
use poison_trace.Base.{
  ℕ, zero, suc, ◌+◌, ◌-◌, ◌*◌, ◌/◌, ◌%◌, ◌≤◌, ◌<◌, Bool, true, false, ◌&&◌, [], ◌∷◌, leb, ltb,
  length, ◌≡◌, ◌∙◌, ap, inl, inr, refl, arith, Bool-cases,
}
use poison_trace.Text.{Str, str_lt, decimal, decimal_digits}

-- The number of a text of digits, after the digits read so far.
abbrev pub number : ℕ → Str → ℕ
number n [] = n
number n (c ∷ s) = number (n * 10 + (c - 48)) s

abbrev pub is_digits : Str → Bool
is_digits [] = true
is_digits (c ∷ s) = leb 48 c && leb c 57 && is_digits s

-- The first digit is not zero.
abbrev pub leads : Str → Bool
leads [] = false
leads (c ∷ s) = ltb 48 c

is_digits-head :
    (c : ℕ) (s : Str) → is_digits (c ∷ s) ≡ true → (48 ≤ c) × ((c ≤ 57) × (is_digits s ≡ true))
is_digits-head c s h = (ground arith, (ground arith, ground arith))

-- A text that is no longer and starts from a smaller number gives a smaller number.
pub number_lt :
    (a b : Str) (m n : ℕ)
    → is_digits a ≡ true
    → length a ≤ length b
    → m < n
    → number m a < number n b
number_lt [] [] m n d l h = h
number_lt [] (y ∷ b) m n d l h = number_lt [] b m _ d (omega arith) (omega (arith, h))
number_lt (x ∷ a) [] m n d l h = absurd (omega (arith, l))
number_lt (x ∷ a) (y ∷ b) m n d l h =
    let (low, (high, rest)) = is_digits-head x a d in
    number_lt a b _ _ rest (omega (arith, l)) (omega (arith, h, low, high))

same_head :
    (n x y : ℕ) (a b : Str)
    → x ≡ y
    → number (n * 10 + (x - 48)) a < number (n * 10 + (x - 48)) b
    → number (n * 10 + (x - 48)) a < number (n * 10 + (y - 48)) b
same_head n x y a b e h = rw (← e) h

-- Of two texts of digits that are equally long, the order is that of the numbers.
pub number-str_lt :
    (a b : Str) (n : ℕ)
    → is_digits a ≡ true
    → is_digits b ≡ true
    → length a ≡ length b
    → str_lt a b ≡ true
    → number n a < number n b
unfolding str_lt
number-str_lt a [] n d e l h = absurd (ground arith)
number-str_lt [] (y ∷ b) n d e l h = absurd (omega (arith, l))
number-str_lt (x ∷ a) (y ∷ b) n d e l h =
    let (low, (high, rest)) = is_digits-head x a d in
    let (low', (high', rest')) = is_digits-head y b e in
    elim (Bool-cases (ltb x y)) [
      | inl smaller ↦
          number_lt a b _ _ rest (omega (arith, l)) (ground (arith, low, high, low', high'))
      | inr not_smaller ↦
          same_head n x y a b (ground arith)
            (number-str_lt a b (n * 10 + (x - 48)) rest rest' (omega (arith, l)) (ground arith))
    ]

-- A text of a number without leading zeros.
pub record IsDecimal (n : ℕ) (s : Str) : Type 0 where
  pub digits : is_digits s ≡ true
  pub value : number 0 s ≡ n
  pub first : 0 < n → leads s ≡ true

decimal_digits-number :
    (fuel n : ℕ) (out : Str) → n < fuel → number 0 (decimal_digits fuel n out) ≡ number n out
unfolding decimal_digits
decimal_digits-number zero n out h = absurd (omega (arith, h))
decimal_digits-number (suc fuel) n out h = elim (Bool-cases (ltb n 10)) [
  | inl e ↦ rw e (ap (λ m. number m out) (omega arith))
  | inr e ↦ rw e (
      decimal_digits-number fuel (n / 10) ((48 + n % 10) ∷ out) (ground (arith, h))
      ∙ ap (λ m. number m out) (omega arith))
]

decimal_digits-digits :
    (fuel n : ℕ) (out : Str) → is_digits out ≡ true → is_digits (decimal_digits fuel n out) ≡ true
unfolding decimal_digits
decimal_digits-digits zero n out h = h
decimal_digits-digits (suc fuel) n out h = elim (Bool-cases (ltb n 10)) [
  | inl e ↦ rw e (ground (arith, h))
  | inr e ↦ rw e (decimal_digits-digits fuel (n / 10) _ (digit_next (n % 10) out (omega arith) h))
]
  where
    digit_next : (d : ℕ) (s : Str) → d < 10 → is_digits s ≡ true → is_digits ((48 + d) ∷ s) ≡ true
    digit_next d s e h = ground (arith, e, h)

decimal_digits-leads :
    (fuel n : ℕ) (out : Str) → n < fuel → 0 < n → leads (decimal_digits fuel n out) ≡ true
unfolding decimal_digits
decimal_digits-leads zero n out h k = absurd (omega (arith, h))
decimal_digits-leads (suc fuel) n out h k = elim (Bool-cases (ltb n 10)) [
  | inl e ↦ rw e (ground (arith, k))
  | inr e ↦ rw e (decimal_digits-leads fuel (n / 10) _ (ground (arith, h)) (ground (arith, h)))
]

pub decimal-IsDecimal : (n : ℕ) → IsDecimal n (decimal n)
unfolding decimal
decimal-IsDecimal n = record {
  digits = decimal_digits-digits (n + 1) n [] refl;
  value = decimal_digits-number (n + 1) n [] (omega arith);
  first = decimal_digits-leads (n + 1) n [] (omega arith);
}
