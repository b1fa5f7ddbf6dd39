-- ===== src/Text/Order.antt =====
-- The bytewise order on strings.
use poison_trace.Base.{true, false, [], ◌∷◌, ◌≡◌, ◌⊎◌, inl, inr, refl, arith}
use poison_trace.Text.{Str, str_lt}

pub str_lt_irrefl : (a : Str) → str_lt a a ≡ false
unfolding str_lt
str_lt_irrefl [] = refl
str_lt_irrefl (x ∷ a) = ground (arith, str_lt_irrefl a)

pub str_lt_trans : (a b c : Str) → str_lt a b ≡ true → str_lt b c ≡ true → str_lt a c ≡ true
unfolding str_lt
str_lt_trans a b [] h k = k
str_lt_trans a [] (z ∷ c) h k = ground arith
str_lt_trans [] (y ∷ b) (z ∷ c) h k = refl
str_lt_trans (x ∷ a) (y ∷ b) (z ∷ c) h k = ground (arith, str_lt_trans a b c)

pub str_lt_total : (a b : Str) → (str_lt a b ≡ true) ⊎ (a ≡ b) ⊎ (str_lt b a ≡ true)
unfolding str_lt
str_lt_total [] [] = inr (inl refl)
str_lt_total [] (y ∷ b) = inl refl
str_lt_total (x ∷ a) [] = inr (inr refl)
str_lt_total (x ∷ a) (y ∷ b) = ground (arith, str_lt_total a b)

pub str_lt_asymm : (a b : Str) → str_lt a b ≡ true → str_lt b a ≡ false
str_lt_asymm a b h = ground (arith, str_lt_trans a b a h, str_lt_irrefl a)
