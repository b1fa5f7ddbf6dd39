-- ===== src/Pipeline/Candidate/Lookalike/Affix.antt =====
-- The common prefix and suffix of two addresses.
use mathlib.Core.List.{reverse-reverse, reverse-append}
use poison_trace.Base.{
  ℕ, suc, ◌≤◌, [], ◌∷◌, ◌++◌, reverse, length, ◌≡◌, refl, ap, ◌∙◌, sym, arith, length-reverse, ◌==◌,
  Bool-cases, inl, inr, ==_iff,
}
use poison_trace.Text.{Str}
use poison_trace.Pipeline.Candidate.Lookalike.{common_prefix_length, common_suffix_length}

-- Both texts begin with the same `n` bytes.
pub record SharesPrefix (a b : Str) (n : ℕ) : Type 0 where
  pub shared : Str
  pub rest_a : Str
  pub rest_b : Str
  pub splits_a : a ≡ shared ++ rest_a
  pub splits_b : b ≡ shared ++ rest_b
  pub size : length shared ≡ n

-- Both texts end with the same `n` bytes.
pub record SharesSuffix (a b : Str) (n : ℕ) : Type 0 where
  pub rest_a : Str
  pub rest_b : Str
  pub shared : Str
  pub splits_a : a ≡ rest_a ++ shared
  pub splits_b : b ≡ rest_b ++ shared
  pub size : length shared ≡ n

SharesPrefix-nil : (a b : Str) → SharesPrefix a b 0
SharesPrefix-nil a b = record {
  shared = [];
  rest_a = a;
  rest_b = b;
  splits_a = refl;
  splits_b = refl;
  size = refl;
}

SharesPrefix-cons :
    (x y : ℕ) (a b : Str) (n : ℕ)
    → x ≡ y
    → SharesPrefix a b n
    → SharesPrefix (x ∷ a) (y ∷ b) (suc n)
SharesPrefix-cons x y a b n e s = record {
  shared = x ∷ s.shared;
  rest_a = s.rest_a;
  rest_b = s.rest_b;
  splits_a = ap (◌∷◌ x) s.splits_a;
  splits_b = rw (← e) (ap (◌∷◌ x) s.splits_b);
  size = ap suc s.size;
}

prefix_shared : (a b : Str) → SharesPrefix a b (common_prefix_length a b)
unfolding common_prefix_length
prefix_shared [] b = SharesPrefix-nil [] b
prefix_shared (x ∷ a) [] = SharesPrefix-nil (x ∷ a) []
prefix_shared (x ∷ a) (y ∷ b) = elim (Bool-cases (x == y)) [
  | inl same ↦ rw same (SharesPrefix-cons x y a b _ ((==_iff x y).0 same) (prefix_shared a b))
  | inr other ↦ rw other (SharesPrefix-nil (x ∷ a) (y ∷ b))
]

shared-le-prefix : (s u v : Str) → length s ≤ common_prefix_length (s ++ u) (s ++ v)
unfolding common_prefix_length
shared-le-prefix [] u v = omega arith
shared-le-prefix (x ∷ s) u v = ground (arith, shared-le-prefix s u v)

-- The prefix that is measured is shared, and no shorter than any prefix that both texts share.
pub common_prefix_length-longest :
    (a b : Str) (n : ℕ)
    → SharesPrefix a b n
    → SharesPrefix a b (common_prefix_length a b) × (n ≤ common_prefix_length a b)
common_prefix_length-longest a b n s = (
  prefix_shared a b,
  rw (s.splits_a, s.splits_b, ← s.size) (shared-le-prefix s.shared s.rest_a s.rest_b),
)

flip : (a b : Str) (n : ℕ) → SharesPrefix (reverse a) (reverse b) n → SharesSuffix a b n
flip a b n s = record {
  rest_a = reverse s.rest_a;
  rest_b = reverse s.rest_b;
  shared = reverse s.shared;
  splits_a = sym (reverse-reverse a) ∙ ap reverse s.splits_a ∙ reverse-append s.shared s.rest_a;
  splits_b = sym (reverse-reverse b) ∙ ap reverse s.splits_b ∙ reverse-append s.shared s.rest_b;
  size = length-reverse s.shared ∙ s.size;
}

flip_back : (a b : Str) (n : ℕ) → SharesSuffix a b n → SharesPrefix (reverse a) (reverse b) n
flip_back a b n s = record {
  shared = reverse s.shared;
  rest_a = reverse s.rest_a;
  rest_b = reverse s.rest_b;
  splits_a = ap reverse s.splits_a ∙ reverse-append s.rest_a s.shared;
  splits_b = ap reverse s.splits_b ∙ reverse-append s.rest_b s.shared;
  size = length-reverse s.shared ∙ s.size;
}

-- The suffix that is measured is shared, and no shorter than any suffix that both texts share.
pub common_suffix_length-longest :
    (a b : Str) (n : ℕ)
    → SharesSuffix a b n
    → SharesSuffix a b (common_suffix_length a b) × (n ≤ common_suffix_length a b)
unfolding common_suffix_length
common_suffix_length-longest a b n s =
    let (shared, longest) =
      common_prefix_length-longest (reverse a) (reverse b) n (flip_back a b n s) in
    (flip a b _ shared, longest)
