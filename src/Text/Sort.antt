-- ===== src/Text/Sort.antt =====
-- `sort.Strings` and `sort.Slice` as insertion sort by a strict order.
use poison_trace.Base.{
  suc, length, Bool, false, List, [], ◌∷◌, ◌≡◌, inl, inr, refl, arith, if◌then◌else◌, count_by, All,
  Bool-cases,
}
use poison_trace.Text.{Str, str_lt}
use poison_trace.Text.Order.{str_lt_trans, str_lt_total, str_lt_asymm}

module _ {ℓ} {A : Type ℓ} (before : A → A → Bool) where
  unfoldable pub insert_by : A → List A → List A
  insert_by x [] = x ∷ []
  insert_by x (y ∷ ys) = if before y x then y ∷ insert_by x ys else x ∷ y ∷ ys

  unfoldable pub sort_by : List A → List A
  sort_by [] = []
  sort_by (x ∷ xs) = insert_by x (sort_by xs)

  abbrev IsSorted : List A → Type 0
  IsSorted [] = Unit
  IsSorted (x ∷ []) = Unit
  IsSorted (x ∷ y ∷ ys) = (before y x ≡ false) × IsSorted (y ∷ ys)

  count_by-insert_by :
      (p : A → Bool) (x : A) (ys : List A) → count_by p (insert_by x ys) ≡ count_by p (x ∷ ys)
  unfolding insert_by
  count_by-insert_by p x [] = refl
  count_by-insert_by p x (y ∷ ys) = ground (arith, count_by-insert_by p x ys)

  -- A sorted list has the elements of the list.
  pub count_by-sort_by : (p : A → Bool) (xs : List A) → count_by p (sort_by xs) ≡ count_by p xs
  unfolding sort_by
  count_by-sort_by p [] = refl
  count_by-sort_by p (x ∷ xs) =
      omega (arith, count_by-insert_by p x (sort_by xs), count_by-sort_by p xs)

  length-insert_by : (x : A) (ys : List A) → length (insert_by x ys) ≡ suc (length ys)
  unfolding insert_by
  length-insert_by x [] = refl
  length-insert_by x (y ∷ ys) = ground (arith, length-insert_by x ys)

  pub length-sort_by : (xs : List A) → length (sort_by xs) ≡ length xs
  unfolding sort_by
  length-sort_by [] = refl
  length-sort_by (x ∷ xs) = omega (arith, length-insert_by x (sort_by xs), length-sort_by xs)

  All-insert_by {κ} :
      (P : A → Type κ) (x : A) (ys : List A) → P x → All P ys → All P (insert_by x ys)
  unfolding insert_by
  All-insert_by P x [] h k = (h, tt)
  All-insert_by P x (y ∷ ys) h k = elim (Bool-cases (before y x)) [
    | inl e ↦ rw e (k.0, All-insert_by P x ys h k.1)
    | inr e ↦ rw e (h, k)
  ]

  pub All-sort_by {κ} : (P : A → Type κ) (xs : List A) → All P xs → All P (sort_by xs)
  unfolding sort_by
  All-sort_by P [] h = tt
  All-sort_by P (x ∷ xs) h = All-insert_by P x (sort_by xs) h.0 (All-sort_by P xs h.1)

-- Strings can be inserted in any order.
pub insert_comm :
    (x y : Str) (l : List Str)
    → insert_by str_lt x (insert_by str_lt y l) ≡ insert_by str_lt y (insert_by str_lt x l)
unfolding insert_by
insert_comm x y [] = ground (arith, str_lt_total x y, str_lt_asymm x y, str_lt_asymm y x)
insert_comm x y (z ∷ l) = ground (
  arith,
  insert_comm x y l,
  str_lt_total x y,
  str_lt_total x z,
  str_lt_total y z,
  str_lt_asymm x y,
  str_lt_asymm y x,
  str_lt_trans z x y,
  str_lt_trans z y x,
)
