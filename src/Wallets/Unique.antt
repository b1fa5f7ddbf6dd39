-- ===== src/Wallets/Unique.antt =====
-- The addresses that a run is given (internal/wallets/service.go).
use poison_trace.Base.{
  ◌≤◌, ltb, ℤ, pos, pos_part, ltb_ℤ, true, false, not, ◌&&◌, List, [], ◌∷◌, ◌++◌, foldl, length,
  length-append, count_by-append, ◌≡◌, arith, Bool-cases, inl, inr,
}
use poison_trace.Text.{Str, str_eq}
use poison_trace.Text.Equality.{str_eq_iff}
use poison_trace.Text.Trim.{trim_space}
use poison_trace.Dict.{has}
use poison_trace.Dict.Laws.{has-of_eq}
use poison_trace.Wallets.{is_skipped, is_full, Loaded, normalize_step, normalize_addresses}
use poison_trace.Wallets.Bounded.{occurrences, occurrences-absent}

-- What the loop keeps: no address twice, and as many addresses as were seen unless the list is full.
record IsNormalized (max_count : ℤ) (l : Loaded) : Type 0 where
  once : (k : Str) → occurrences k l.seen ≤ 1
  kept : (k : Str) → occurrences k l.out ≤ occurrences k l.seen
  bounded : (ltb_ℤ (pos 0) max_count && ltb (pos_part max_count) (length l.out)) ≡ false
  within_seen : length l.out ≤ length l.seen
  full_if_cut : (ltb (length l.out) (length l.seen) && not (is_full max_count l.out)) ≡ false

see_again :
    (max_count : ℤ) (l : Loaded) (a : Str)
    → IsNormalized max_count l
    → has l.seen a ≡ false
    → is_full max_count l.out ≡ true
    → IsNormalized max_count (record l { seen = a ∷ l.seen })
see_again max_count l a h unseen full = record {
  once = λ k.
      ground (arith, h.once k, str_eq_iff a k, has-of_eq l.seen a k, occurrences-absent k l.seen);
  kept = λ k. ground (arith, h.kept k);
  bounded = h.bounded;
  within_seen = omega (arith, h.within_seen);
  full_if_cut = ground arith;
}

take_new :
    (max_count : ℤ) (l : Loaded) (a : Str)
    → IsNormalized max_count l
    → has l.seen a ≡ false
    → is_full max_count l.out ≡ false
    → IsNormalized max_count (record { out = l.out ++ a ∷ []; seen = a ∷ l.seen })
unfolding is_full
take_new max_count l a h unseen room = record {
  once = λ k.
      ground (arith, h.once k, str_eq_iff a k, has-of_eq l.seen a k, occurrences-absent k l.seen);
  kept = λ k. ground (arith, h.kept k, count_by-append {0} (λ b. str_eq b k) l.out (a ∷ []));
  bounded = ground (arith, h.bounded, length-append {0} l.out (a ∷ []));
  within_seen = ground (arith, h.within_seen, length-append {0} l.out (a ∷ []));
  full_if_cut = ground (arith, h.full_if_cut, length-append {0} l.out (a ∷ []));
}

step-IsNormalized :
    (max_count : ℤ) (l : Loaded) (raw : Str)
    → IsNormalized max_count l
    → IsNormalized max_count (normalize_step max_count l raw)
unfolding normalize_step
step-IsNormalized max_count l raw h = elim (Bool-cases (is_skipped (trim_space raw))) [
  | inl skip ↦ rw (normalize_step, skip) h
  | inr keep ↦ elim (Bool-cases (has l.seen (trim_space raw))) [
    | inl seen ↦ rw (normalize_step, keep, seen) h
    | inr unseen ↦ elim (Bool-cases (is_full max_count l.out)) [
      | inl full ↦
          rw (normalize_step, keep, unseen, full)
            (see_again max_count l (trim_space raw) h unseen full)
      | inr room ↦
          rw (normalize_step, keep, unseen, room)
            (take_new max_count l (trim_space raw) h unseen room)
    ]
  ]
]

fold-IsNormalized :
    (max_count : ℤ) (l : Loaded) (addresses : List Str)
    → IsNormalized max_count l
    → IsNormalized max_count (foldl (normalize_step max_count) l addresses)
fold-IsNormalized max_count l [] h = h
fold-IsNormalized max_count l (raw ∷ addresses) h =
    fold-IsNormalized max_count (normalize_step max_count l raw) addresses
      (step-IsNormalized max_count l raw h)

-- The list holds an address at most once and, with a positive bound, no more than the bound; the
-- count is at least its length, and larger only if the list is full.
pub normalize_addresses-counts :
    (addresses : List Str) (max_count : ℤ) (k : Str)
    → (occurrences k (normalize_addresses addresses max_count).0 ≤ 1)
      × ((ltb_ℤ (pos 0) max_count
            && ltb (pos_part max_count) (length (normalize_addresses addresses max_count).0))
          ≡ false)
      × (length (normalize_addresses addresses max_count).0
          ≤ (normalize_addresses addresses max_count).1)
      × ((ltb
              (length (normalize_addresses addresses max_count).0)
              (normalize_addresses addresses max_count).1
            && not (is_full max_count (normalize_addresses addresses max_count).0))
          ≡ false)
unfolding normalize_addresses
normalize_addresses-counts addresses max_count k =
    let start : IsNormalized max_count (record { out = []; seen = [] }) = record {
      once = λ j. omega arith;
      kept = λ j. omega arith;
      bounded = ground arith;
      within_seen = omega arith;
      full_if_cut = ground arith;
    } in
    let h = fold-IsNormalized max_count (record { out = []; seen = [] }) addresses start in
    (omega (arith, h.once k, h.kept k), h.bounded, h.within_seen, h.full_if_cut)
