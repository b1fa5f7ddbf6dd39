-- ===== src/Base/Lists.antt =====
-- Lists measured by native numbers, Boolean filters and tests, and predicates over lists.
use Prim.Native.Nat.{ℕ, zero, suc, ◌+◌, ◌≤◌, min}
use mathlib.Core.Path.{◌≡◌, refl, ap, ◌∙◌}
use mathlib.Core.Bool.{Bool, true, false, not, ◌||◌}
use mathlib.Core.List.{List, [], ◌∷◌, ◌++◌, foldl, reverse, reverse_aux, Permᴰ}
use mathlib.Core.Option.{Option, none, some}
use native.Mathlib.Omega.{arith}
use poison_trace.Base.Tests.{if◌then◌else◌}

module _ {ℓ} {A : Type ℓ} where
  abbrev pub length : List A → ℕ
  length [] = 0
  length (x ∷ xs) = suc (length xs)

  abbrev pub take : ℕ → List A → List A
  take zero xs = []
  take (suc n) [] = []
  take (suc n) (x ∷ xs) = x ∷ take n xs

  abbrev pub is_nil : List A → Bool
  is_nil [] = true
  is_nil (x ∷ xs) = false

  -- The elements that pass a test, in order.
  abbrev pub select : (A → Bool) → List A → List A
  select p [] = []
  select p (x ∷ xs) = if p x then x ∷ select p xs else select p xs

  abbrev pub any : (A → Bool) → List A → Bool
  any p [] = false
  any p (x ∷ xs) = p x || any p xs

  -- How many elements pass a test.
  abbrev pub count_by : (A → Bool) → List A → ℕ
  count_by p [] = 0
  count_by p (x ∷ xs) = (if p x then 1 else 0) + count_by p xs

  abbrev pub last? : List A → Option A
  last? [] = none
  last? (x ∷ []) = some x
  last? (x ∷ y ∷ xs) = last? (y ∷ xs)

  pub length-append : (xs ys : List A) → length (xs ++ ys) ≡ length xs + length ys
  length-append [] ys = omega arith
  length-append (x ∷ xs) ys = omega (arith, length-append xs ys)

  length-reverse_aux : (xs r : List A) → length (reverse_aux xs r) ≡ length xs + length r
  length-reverse_aux [] r = omega arith
  length-reverse_aux (x ∷ xs) r = omega (arith, length-reverse_aux xs (x ∷ r))

  pub length-reverse : (xs : List A) → length (reverse xs) ≡ length xs
  length-reverse xs = omega (arith, length-reverse_aux xs [])

  pub length-take : (n : ℕ) (xs : List A) → length (take n xs) ≡ min n (length xs)
  length-take zero xs = omega arith
  length-take (suc n) [] = omega arith
  length-take (suc n) (x ∷ xs) = omega (arith, length-take n xs)

  pub count_by-append :
      (p : A → Bool) (xs ys : List A) → count_by p (xs ++ ys) ≡ count_by p xs + count_by p ys
  count_by-append p [] ys = omega arith
  count_by-append p (x ∷ xs) ys = omega (arith, count_by-append p xs ys)

  pub count_by-not :
      (p : A → Bool) (xs : List A) → count_by p xs + count_by (λ x. not (p x)) xs ≡ length xs
  count_by-not p [] = omega arith
  count_by-not p (x ∷ xs) = ground (arith, count_by-not p xs)

  pub count_by-le-length : (p : A → Bool) (xs : List A) → count_by p xs ≤ length xs
  count_by-le-length p [] = omega arith
  count_by-le-length p (x ∷ xs) = ground (arith, count_by-le-length p xs)

  pub any-append : (p : A → Bool) (xs ys : List A) → any p (xs ++ ys) ≡ (any p xs || any p ys)
  any-append p [] ys = refl
  any-append p (x ∷ xs) ys = ground (arith, any-append p xs ys)

abbrev pub All {ℓ κ} : {A : Type ℓ} → (A → Type κ) → List A → Type κ
All P [] = Unit
All P (x ∷ xs) = P x × All P xs

pub All-append {ℓ κ} :
    {A : Type ℓ} (P : A → Type κ) (xs ys : List A) → All P xs → All P ys → All P (xs ++ ys)
All-append P [] ys hx hy = hy
All-append P (x ∷ xs) ys hx hy = (hx.0, All-append P xs ys hx.1 hy)

-- The place of an element in a list.
pub data In {ℓ} {A : Type ℓ} (a : A) : List A → Type ℓ where
  here : {x : A} {xs : List A} → a ≡ x → In a (x ∷ xs)
  there : {x : A} {xs : List A} → In a xs → In a (x ∷ xs)

pub All-In {ℓ κ} : {A : Type ℓ} (P : A → Type κ) (a : A) (xs : List A) → All P xs → In a xs → P a
All-In P a [] h i = elim i [ ]
All-In P a (x ∷ xs) h (here e) = rw e h.0
All-In P a (x ∷ xs) h (there i) = All-In P a xs h.1 i

pub In-append {ℓ} : {A : Type ℓ} (a : A) (xs ys : List A) → In a xs → In a (xs ++ ys)
In-append a [] ys i = elim i [ ]
In-append a (x ∷ xs) ys (here e) = here e
In-append a (x ∷ xs) ys (there i) = there (In-append a xs ys i)

pub In-last {ℓ} : {A : Type ℓ} (a : A) (xs : List A) → In a (xs ++ a ∷ [])
In-last a [] = here refl
In-last a (x ∷ xs) = there (In-last a xs)

-- A loop whose steps commute gives the same over every order of the elements.
pub foldl-perm {ℓ κ} :
    {A : Type ℓ} {B : Type κ} (f : B → A → B)
    → ((b : B) (x y : A) → f (f b x) y ≡ f (f b y) x)
    → {xs ys : List A} → Permᴰ xs ys
    → (b : B) → foldl f b xs ≡ foldl f b ys
foldl-perm f comm Permᴰ.nil b = refl
foldl-perm f comm (Permᴰ.cons {a} {b = a'} e h) b = rw e (foldl-perm f comm h (f b a'))
foldl-perm f comm (Permᴰ.swap {a} {b = a'} {l = l} e e') b =
    rw (← e, ← e') (ap (λ c. foldl f c l) (comm b a a'))
foldl-perm f comm (Permᴰ.trans h k) b = foldl-perm f comm h b ∙ foldl-perm f comm k b
