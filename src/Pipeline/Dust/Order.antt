-- ===== src/Pipeline/Dust/Order.antt =====
-- The instants of rules that are sorted and do not overlap.
use poison_trace.Base.{ℕ, ◌≤◌, ◌<◌, true, false, List, [], ◌∷◌, All, ◌≡◌, arith}
use poison_trace.Text.Sort.{sort_by, insert_by}
use poison_trace.Time.{Time}
use poison_trace.Pipeline.Dust.{DustRule, starts_before, overlap, has_overlap, covers}

-- Each rule begins no later than those behind it.
abbrev pub IsSorted : List DustRule → Type 0
IsSorted [] = Unit
IsSorted (r ∷ rules) = All (λ q. r.from ≤ q.from) rules × IsSorted rules

All-insert :
    (n : ℕ) (r : DustRule) (rules : List DustRule)
    → n ≤ r.from
    → All (λ q. n ≤ q.from) rules
    → All (λ q. n ≤ q.from) (insert_by starts_before r rules)
unfolding insert_by
All-insert n r [] h a = (h, tt)
All-insert n r (q ∷ rules) h a = ground (arith, All-insert n r rules h a.1)

All-weaken :
    (m n : ℕ) (rules : List DustRule)
    → m ≤ n
    → All (λ q. n ≤ q.from) rules
    → All (λ q. m ≤ q.from) rules
All-weaken m n [] h a = tt
All-weaken m n (q ∷ rules) h a = (omega arith, All-weaken m n rules h a.1)

insert-IsSorted :
    (r : DustRule) (rules : List DustRule)
    → IsSorted rules
    → IsSorted (insert_by starts_before r rules)
unfolding insert_by starts_before
insert-IsSorted r [] s = (tt, tt)
insert-IsSorted r (q ∷ rules) s =
    ground (
      arith,
      insert-IsSorted r rules s.1,
      All-insert q.from r rules,
      All-weaken r.from q.from rules,
    )

pub sort-IsSorted : (rules : List DustRule) → IsSorted (sort_by starts_before rules)
unfolding sort_by
sort-IsSorted [] = tt
sort-IsSorted (r ∷ rules) = insert-IsSorted r (sort_by starts_before rules) (sort-IsSorted rules)

-- Rules that begin after an instant do not hold there.
not-covers-after :
    (at n : ℕ) (rules : List DustRule)
    → at < n
    → All (λ q. n ≤ q.from) rules
    → All (λ q. covers at q ≡ false) rules
unfolding covers
not-covers-after at n [] h a = tt
not-covers-after at n (q ∷ rules) h a = (ground arith, not-covers-after at n rules h a.1)

-- Behind a rule that holds at an instant no other rule holds there.
pub not-covers-later :
    (at : Time) (r : DustRule) (rules : List DustRule)
    → IsSorted (r ∷ rules)
    → has_overlap (r ∷ rules) ≡ false
    → covers at r ≡ true
    → All (λ q. covers at q ≡ false) rules
unfolding has_overlap covers overlap
not-covers-later at r [] s o c = tt
not-covers-later at r (q ∷ rules) s o c =
    let later : at < q.from = ground arith in
    (ground arith, not-covers-after at q.from rules later s.1.0)
