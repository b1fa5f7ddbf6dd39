-- ===== src/Wallets/Bounded.antt =====
-- The addresses that are read from a file (internal/wallets/service.go).
use poison_trace.Base.{
  ltb, Bool-cases, inl, inr, ℕ, ◌≤◌, ℤ, pos, pos_part, ltb_ℤ, false, ◌&&◌, ◌||◌, List, [], ◌∷◌,
  ◌++◌, length, length-append, count_by, count_by-append, ◌≡◌, refl, arith,
}
use poison_trace.Text.{Str, str_eq}
use poison_trace.Text.Equality.{str_eq_iff}
use poison_trace.Text.Trim.{trim_space}
use poison_trace.Dict.{has}
use poison_trace.Dict.Laws.{has-of_eq}
use poison_trace.Wallets.{is_skipped, is_full, load_loop, load_addresses_excluding_file}

has-append : (l m : List Str) (k : Str) → has (l ++ m) k ≡ (has l k || has m k)
unfolding has
has-append [] m k = refl
has-append (x ∷ l) m k = ground (arith, has-append l m k)

-- How often an address stands in a list.
abbrev pub occurrences : Str → List Str → ℕ
occurrences k l = count_by (λ a. str_eq a k) l

pub occurrences-absent : (k : Str) (l : List Str) → has l k ≡ false → occurrences k l ≡ 0
unfolding has
occurrences-absent k [] h = refl
occurrences-absent k (a ∷ l) h = ground (arith, occurrences-absent k l)

-- What the loop of the file reader keeps.
pub record IsLoad (excluded : List Str) (max_count : ℤ) (out : List Str) : Type 0 where
  pub once : (k : Str) → occurrences k out ≤ 1
  pub allowed : (k : Str) → (has out k && has excluded k) ≡ false
  pub bounded : (ltb_ℤ (pos 0) max_count && ltb (pos_part max_count) (length out)) ≡ false

grow :
    (excluded : List Str) (max_count : ℤ) (out : List Str) (a : Str)
    → IsLoad excluded max_count out
    → has excluded a ≡ false
    → has out a ≡ false
    → is_full max_count out ≡ false
    → IsLoad excluded max_count (out ++ a ∷ [])
unfolding has is_full
grow excluded max_count out a l e f g = record {
  once = λ k. ground (
    arith,
    l.once k,
    count_by-append {0} (λ b. str_eq b k) out (a ∷ []),
    str_eq_iff a k,
    occurrences-absent k out,
  );
  allowed = λ k.
      ground
        (arith, l.allowed k, has-append out (a ∷ []) k, str_eq_iff a k, has-of_eq excluded a k);
  bounded = ground (arith, l.bounded, length-append {0} out (a ∷ []));
}

-- Nothing is lost when a line is passed over, and a line that is taken keeps the list so.
load_loop-IsLoad :
    (excluded : List Str) (max_count : ℤ) (out lines : List Str)
    → IsLoad excluded max_count out
    → is_full max_count out ≡ false
    → IsLoad excluded max_count (load_loop excluded max_count out lines)
unfolding load_loop
load_loop-IsLoad excluded max_count out [] l f = l
load_loop-IsLoad excluded max_count out (line ∷ lines) l f =
    let addr = trim_space line in
    elim (Bool-cases (is_skipped addr || has excluded addr || has out addr)) [
      | inl skip ↦ rw skip (load_loop-IsLoad excluded max_count out lines l f)
      | inr keep ↦
          let more : IsLoad excluded max_count (out ++ addr ∷ []) =
            grow excluded max_count out addr l (ground arith) (ground arith) f in
          elim (Bool-cases (is_full max_count (out ++ addr ∷ []))) [
            | inl full ↦ rw (keep, full) more
            | inr room ↦
                rw (keep, room)
                  (load_loop-IsLoad excluded max_count (out ++ addr ∷ []) lines more room)
          ]
    ]

-- The addresses that are read from a file hold no address twice, none that stands in the other file,
-- and, with a positive bound, no more than the bound.
pub load_addresses_excluding_file-IsLoad :
    (lines excluded_lines : List Str) (max_count : ℤ)
    → IsLoad
        (load_loop [] (pos 0) [] excluded_lines)
        max_count
        (load_addresses_excluding_file lines excluded_lines max_count)
unfolding load_addresses_excluding_file has is_full
load_addresses_excluding_file-IsLoad lines excluded_lines max_count =
    load_loop-IsLoad (load_loop [] (pos 0) [] excluded_lines) max_count [] lines
      (record { once = λ k. omega arith; allowed = λ k. ground arith; bounded = ground arith })
      (ground arith)
