-- ===== src/WalletSource/Amounts/Compare.antt =====
-- Amounts compared as texts and as numbers.
use poison_trace.Base.{
  ℕ, zero, suc, ◌≤◌, ◌<◌, true, false, [], ◌∷◌, leb, ◌==◌, length, ◌≡◌, ◌⊎◌, ◌∙◌, sym, ap, ap₂, inl,
  inr, refl, arith, Bool-cases,
}
use poison_trace.Text.{Str, is_empty, str_lt, decimal}
use poison_trace.Text.Trim.{trim_space}
use poison_trace.Text.Order.{str_lt_total}
use poison_trace.Text.Decimal.{
  number, is_digits, leads, number_lt, number-str_lt, decimal-IsDecimal,
}
use poison_trace.WalletSource.Amounts.{amount_raw_lte, all_ascii_digits, trim_zeros, text_leb}

all_ascii_digits-is_digits : (s : Str) → all_ascii_digits s ≡ is_digits s
unfolding all_ascii_digits
all_ascii_digits-is_digits [] = refl
all_ascii_digits-is_digits (c ∷ s) = rw (all_ascii_digits-is_digits s) refl

trim_zeros-number : (s : Str) → is_digits s ≡ true → number 0 (trim_zeros s) ≡ number 0 s
unfolding trim_zeros
trim_zeros-number [] h = refl
trim_zeros-number (c ∷ s) h = elim (Bool-cases (c == 48)) [
  | inl e ↦
      rw e (trim_zeros-number s (ground (arith, h)) ∙ ap (λ n. number n s) (ground (arith, e)))
  | inr e ↦ rw e refl
]

trim_zeros-is_digits : (s : Str) → is_digits s ≡ true → is_digits (trim_zeros s) ≡ true
unfolding trim_zeros
trim_zeros-is_digits [] h = refl
trim_zeros-is_digits (c ∷ s) h = elim (Bool-cases (c == 48)) [
  | inl e ↦ rw e (trim_zeros-is_digits s (ground (arith, h)))
  | inr e ↦ rw e h
]

trim_zeros-leads :
    (s : Str) → is_digits s ≡ true → is_empty (trim_zeros s) ≡ false → leads (trim_zeros s) ≡ true
unfolding trim_zeros
trim_zeros-leads [] h k = absurd (ground arith)
trim_zeros-leads (c ∷ s) h k = elim (Bool-cases (c == 48)) [
  | inl e ↦ rw e (trim_zeros-leads s (ground (arith, h)) (rw e at k))
  | inr e ↦ rw e (ground (arith, h, e))
]

-- A text that leads with a digit is beyond every shorter one.
shorter_lt :
    (a b : Str)
    → is_digits a ≡ true
    → leads b ≡ true
    → length a < length b
    → number 0 a < number 0 b
shorter_lt a [] d h l = absurd (ground arith)
shorter_lt a (y ∷ b) d h l = number_lt a b 0 _ d (omega (arith, l)) (ground (arith, h))

leads-length : (s : Str) → leads s ≡ true → 0 < length s
leads-length [] h = absurd (ground arith)
leads-length (c ∷ s) h = omega arith

compare-cases : (m n : ℕ) → (m < n) ⊎ (n < m) ⊎ (m ≡ n)
compare-cases m n = ground arith

same_length :
    (a b : Str)
    → is_digits a ≡ true
    → is_digits b ≡ true
    → length a ≡ length b
    → str_lt b a ≡ false
    → number 0 a ≤ number 0 b
same_length a b d e l h = elim (str_lt_total a b) [
  | inl less ↦ omega (arith, number-str_lt a b 0 d e l less)
  | inr (inl same) ↦ rw same (omega arith)
  | inr (inr greater) ↦ absurd (ground (arith, h, greater))
]

-- Only the text of zero does not lead, and it has one digit.
leads_or_zero : (n : ℕ) → 1 < length (decimal n) → leads (decimal n) ≡ true
unfolding decimal
leads_or_zero zero h = absurd (omega (arith, h))
leads_or_zero (suc n) h = (decimal-IsDecimal (suc n)).first (omega arith)

zero_leb :
    (s : Str) (n : ℕ)
    → is_digits s ≡ true
    → is_empty (trim_zeros s) ≡ true
    → leb (number 0 s) n ≡ true
zero_leb s n d h = ground (arith, trim_zeros-number s d, of_empty (trim_zeros s) h)
  where
    of_empty : (t : Str) → is_empty t ≡ true → number 0 t ≡ 0
    of_empty [] h = refl
    of_empty (c ∷ t) h = absurd (ground arith)

text_leb-number :
    (a b : Str)
    → is_digits a ≡ true
    → is_digits b ≡ true
    → leads a ≡ true
    → (1 < length b → leads b ≡ true)
    → text_leb a b ≡ leb (number 0 a) (number 0 b)
unfolding text_leb
text_leb-number a b d e h k = elim (compare-cases (length a) (length b)) [
  | inl shorter ↦
      ground (arith, shorter_lt a b d (k (omega (arith, shorter, leads-length a h))) shorter)
  | inr (inl longer) ↦ ground (arith, shorter_lt b a e h longer)
  | inr (inr same) ↦ elim (Bool-cases (str_lt b a)) [
    | inl greater ↦ ground (arith, number-str_lt b a 0 e d (omega (arith, same)) greater)
    | inr not_greater ↦ ground (arith, same_length a b d e same not_greater)
  ]
]

-- An amount that is a text of digits is at most the threshold as a text exactly if it is so as a
-- number, whatever its length and its leading zeros.
pub amount_raw_lte-number :
    (v : Str) (threshold : ℕ)
    → is_empty (trim_space v) ≡ false
    → all_ascii_digits (trim_space v) ≡ true
    → amount_raw_lte v threshold ≡ leb (number 0 (trim_space v)) threshold
unfolding amount_raw_lte
amount_raw_lte-number v threshold h k =
    let text = trim_space v in
    let digits = sym (all_ascii_digits-is_digits text) ∙ k in
    let of_threshold = decimal-IsDecimal threshold in
    rw (h, k)
      (elim (Bool-cases (is_empty (trim_zeros text))) [
        | inl e ↦ rw e (sym (zero_leb text threshold digits e))
        | inr e ↦ rw e (
            text_leb-number (trim_zeros text) (decimal threshold) (trim_zeros-is_digits text digits)
              of_threshold.digits (trim_zeros-leads text digits e) (leads_or_zero threshold)
            ∙ ap₂ leb (trim_zeros-number text digits) of_threshold.value)
      ])
