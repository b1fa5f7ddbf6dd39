-- ===== src/Pipeline/Dust/Classify.antt =====
-- The classifier at a transfer's instant.
use mathlib.Core.List.{reverse-cons}
use poison_trace.Base.{
  any, any-append, ◌∙◌, ℕ, true, false, List, [], ◌∷◌, ◌++◌, reverse, All, In, here, there, ◌≡◌,
  refl, arith, leb, if◌then◌else◌,
}
use poison_trace.Time.{Time}
use poison_trace.Transactions.{DustStatus, dust_true, dust_false}
use poison_trace.Pipeline.Dust.{DustRule, has_overlap, covers, scan_rules}
use poison_trace.Pipeline.Dust.Order.{IsSorted, not-covers-later}

-- A rule's answer on an amount.
abbrev pub verdict : ℕ → DustRule → DustStatus
verdict amount r = if leb amount r.threshold then dust_true else dust_false

scan-append :
    (at : Time) (amount : ℕ) (xs ys : List DustRule)
    → All (λ q. covers at q ≡ false) xs
    → scan_rules at amount (xs ++ ys) ≡ scan_rules at amount ys
unfolding scan_rules
scan-append at amount [] ys a = refl
scan-append at amount (q ∷ xs) ys a = rw (a.0) (scan-append at amount xs ys a.1)

scan-one :
    (at : Time) (amount : ℕ) (r : DustRule) (ys : List DustRule)
    → covers at r ≡ true
    → scan_rules at amount (r ∷ ys) ≡ verdict amount r
unfolding scan_rules
scan-one at amount r ys c = rw (c) refl

scan-found :
    (at : Time) (amount : ℕ) (xs ys : List DustRule)
    → any (covers at) xs ≡ true
    → scan_rules at amount (xs ++ ys) ≡ scan_rules at amount xs
unfolding scan_rules
scan-found at amount [] ys h = ground arith
scan-found at amount (q ∷ xs) ys h = ground (arith, scan-found at amount xs ys)

any-In :
    (at : Time) (r : DustRule) (xs : List DustRule)
    → In r xs
    → covers at r ≡ true
    → any (covers at) xs ≡ true
any-In at r [] i c = elim i [ ]
any-In at r (x ∷ xs) (here e) c = rw (← e, c) refl
any-In at r (x ∷ xs) (there i) c = ground (arith, any-In at r xs i c)

any-reverse : (at : Time) (xs : List DustRule) → any (covers at) (reverse xs) ≡ any (covers at) xs
any-reverse at [] = refl
any-reverse at (x ∷ xs) =
    rw (reverse-cons, any-append (covers at) (reverse xs) (x ∷ []), any-reverse at xs)
      (ground arith)

-- A test that no rule passes.
none-any :
    (at : Time) (xs : List DustRule)
    → All (λ q. covers at q ≡ false) xs
    → any (covers at) xs ≡ false
none-any at [] a = refl
none-any at (x ∷ xs) a = rw (a.0) (none-any at xs a.1)

any-none :
    (at : Time) (xs : List DustRule)
    → any (covers at) xs ≡ false
    → All (λ q. covers at q ≡ false) xs
any-none at [] a = tt
any-none at (x ∷ xs) a = (ground arith, any-none at xs (ground arith))

tail-has_overlap :
    (q : DustRule) (rules : List DustRule)
    → has_overlap (q ∷ rules) ≡ false
    → has_overlap rules ≡ false
unfolding has_overlap
tail-has_overlap q [] o = refl
tail-has_overlap q (p ∷ rules) o = ground arith

-- Among sorted rules without overlap the scan finds the one that holds.
pub scan-reverse :
    (at : Time) (amount : ℕ) (r : DustRule) (rules : List DustRule)
    → IsSorted rules
    → has_overlap rules ≡ false
    → In r rules
    → covers at r ≡ true
    → scan_rules at amount (reverse rules) ≡ verdict amount r
scan-reverse at amount r [] s o i c = elim i [ ]
scan-reverse at amount r (q ∷ rules) s o (here e) c =
    rw (reverse-cons, e)
      (scan-append at amount (reverse rules) (q ∷ []) (
          any-none at (reverse rules) (
            any-reverse at rules
            ∙ none-any at rules (not-covers-later at q rules s o (rw (← e) c))))
        ∙ scan-one at amount q [] (rw (← e) c))
scan-reverse at amount r (q ∷ rules) s o (there i) c = rw reverse-cons (
    scan-found at amount (reverse rules) (q ∷ []) (any-reverse at rules ∙ any-In at r rules i c)
    ∙ scan-reverse at amount r rules s.1 (tail-has_overlap q rules o) i c)
