-- ===== src/Pipeline/Dust/Build.antt =====
-- The rules that the rows of the threshold table become.
use poison_trace.Base.{
  In-append, In-last, ℕ, true, false, List, [], ◌∷◌, ◌++◌, reverse, some, In, here, there, ◌≡◌,
  refl, sym, ◌∙◌, inl, inr, Bool-cases, arith, leb, if◌then◌else◌,
}
use poison_trace.Text.{Str, str_eq}
use poison_trace.Text.Equality.{str_eq_iff, str_eq_refl}
use poison_trace.Text.Sort.{sort_by, insert_by}
use poison_trace.Text.Trim.{trim_space}
use poison_trace.Errors.{Result, ok, err, ◌>>=◌}
use poison_trace.Errors.Actions.{Result-cases}
use poison_trace.Dict.{Dict, get_or, put}
use poison_trace.Dict.Laws.{get_or-put}
use poison_trace.Transactions.{NormalizedTransfer, DustStatus, dust_true, dust_false}
use poison_trace.Pipeline.Dust.{
  DustThreshold, DustRule, natural_amount, rule_of, index_rules, starts_before, has_overlap,
  sort_rules, build_rules, covers, scan_rules, classify_dust, build_dust_classifier,
}
use poison_trace.Pipeline.Dust.Order.{IsSorted, sort-IsSorted}
use poison_trace.Pipeline.Dust.Classify.{verdict, scan-reverse}

-- A rule stays in its asset's list when another is added.
In-put :
    (index : Dict (List DustRule)) (a b : Str) (r q : DustRule)
    → In r (get_or index a [])
    → In r (get_or (put index b (get_or index b [] ++ q ∷ [])) a [])
In-put index a b r q i = elim (Bool-cases (str_eq b a)) [
  | inl same ↦
      let e : b ≡ a = (str_eq_iff b a).0 same in
      rw (get_or-put, same, e) (In-append r (get_or index a []) (q ∷ []) i)
  | inr other ↦ rw (get_or-put, other) i
]

index_row :
    (index : Dict (List DustRule)) (row : DustThreshold) (rows : List DustThreshold) (b : Str)
    (q : DustRule)
    → rule_of row ≡ ok (b, q)
    → index_rules index (row ∷ rows) ≡ index_rules (put index b (get_or index b [] ++ q ∷ [])) rows
unfolding index_rules
index_row index row rows b q g = rw (index_rules, g) refl

index-keeps :
    (index found : Dict (List DustRule)) (rows : List DustThreshold) (a : Str) (r : DustRule)
    → index_rules index rows ≡ ok found
    → In r (get_or index a [])
    → In r (get_or found a [])
unfolding index_rules
index-keeps index found [] a r h i = let e : index ≡ found = cc in rw (← e) i
index-keeps index found (row ∷ rows) a r h i = elim (Result-cases (rule_of row)) [
  | inl ((b, q), g) ↦
      index-keeps (put index b (get_or index b [] ++ q ∷ [])) found rows a r
        (sym (index_row index row rows b q g) ∙ h) (In-put index a b r q i)
  | inr (e, g) ↦ ground arith
]

-- The rule of a row is in its asset's list.
index-holds :
    (index found : Dict (List DustRule)) (rows : List DustThreshold) (row : DustThreshold) (a : Str)
    (r : DustRule)
    → index_rules index rows ≡ ok found
    → In row rows
    → rule_of row ≡ ok (a, r)
    → In r (get_or found a [])
unfolding index_rules
index-holds index found [] row a r h i g = elim i [ ]
index-holds index found (x ∷ rows) row a r h (here e) g =
    index-keeps (put index a (get_or index a [] ++ r ∷ [])) found rows a r
      (sym (index_row index x rows a r (rw (← e) g)) ∙ h)
      (rw (get_or-put, str_eq_refl) (In-last r (get_or index a [])))
index-holds index found (x ∷ rows) row a r h (there i) g = elim (Result-cases (rule_of x)) [
  | inl ((b, q), k) ↦
      index-holds (put index b (get_or index b [] ++ q ∷ [])) found rows row a r
        (sym (index_row index x rows b q k) ∙ h) i g
  | inr (e, k) ↦ ground arith
]

In-insert : (r q : DustRule) (l : List DustRule) → In r (q ∷ l) → In r (insert_by starts_before q l)
unfolding insert_by
In-insert r q [] i = i
In-insert r q (x ∷ l) i = elim (Bool-cases (starts_before x q)) [
  | inr stop ↦ rw stop i
  | inl go ↦ rw go (elim i [
    | here e ↦ there (In-insert r q l (here e))
    | there (here e) ↦ here e
    | there (there j) ↦ there (In-insert r q l (there j))
  ])
]

In-sort : (r : DustRule) (l : List DustRule) → In r l → In r (sort_by starts_before l)
unfolding sort_by
In-sort r [] i = i
In-sort r (x ∷ l) (here e) = In-insert r x (sort_by starts_before l) (here e)
In-sort r (x ∷ l) (there i) = In-insert r x (sort_by starts_before l) (there (In-sort r l i))

sort_rules_tail :
    (asset : Str) (rules : List DustRule) (index found : Dict (List DustRule))
    → sort_rules ((asset, rules) ∷ index) ≡ ok found
    → (has_overlap (sort_by starts_before rules) ≡ false)
      × ((rest : Dict (List DustRule)) × (sort_rules index ≡ ok rest)
          × (found ≡ (asset, sort_by starts_before rules) ∷ rest))
unfolding sort_rules
sort_rules_tail asset rules index found h = elim (Result-cases (sort_rules index)) [
  | inl (rest, k) ↦ (ground arith, (rest, k, ground arith))
  | inr (e, k) ↦ ground arith
]

-- The asset's rules in the finished index.
sort_rules-holds :
    (index found : Dict (List DustRule)) (a : Str) (r : DustRule)
    → sort_rules index ≡ ok found
    → In r (get_or index a [])
    → (has_overlap (get_or found a []) ≡ false)
      × IsSorted (get_or found a [])
      × In r (get_or found a [])
unfolding get_or
sort_rules-holds [] found a r h i = elim i [ ]
sort_rules-holds ((b, rules) ∷ index) found a r h i =
    let (clear, (rest, k, e)) = sort_rules_tail b rules index found h in
    elim (Bool-cases (str_eq b a)) [
      | inl same ↦
          let own : get_or ((b, rules) ∷ index) a [] ≡ rules = rw (get_or, same) refl in
          rw (e, get_or, same) (clear, sort-IsSorted rules, In-sort r rules (rw (← own) i))
      | inr other ↦
          let kept : get_or ((b, rules) ∷ index) a [] ≡ get_or index a [] =
            rw (get_or, other) refl in
          rw (e, get_or, other) (sort_rules-holds index rest a r k (rw (← kept) i))
    ]

bind-eq-ok :
    {A B : Type 0} (m : Result A) (f : A → Result B) (b : B)
    → (m >>= f) ≡ ok b
    → (a : A) × ((m ≡ ok a) × (f a ≡ ok b))
bind-eq-ok (ok a) f b h = (a, (refl, h))
bind-eq-ok (err e) f b h = ground arith

ok-injective : {A : Type 0} (a b : A) → (Result.ok a ≡ ok b) → a ≡ b
ok-injective a b h = cc

-- A classifier stands for an index of sorted rules.
built :
    (rows : List DustThreshold) (classify : NormalizedTransfer → DustStatus)
    → build_dust_classifier rows ≡ ok classify
    → (index : Dict (List DustRule)) × ((found : Dict (List DustRule)) × ((index_rules [] rows
            ≡ ok index)
          × (sort_rules index ≡ ok found)
          × (classify_dust found ≡ classify)))
unfolding build_dust_classifier build_rules
built rows classify h =
    let (found, (k, e)) = bind-eq-ok (build_rules rows) _ classify h in
    let (index, (j, m)) = bind-eq-ok (index_rules [] rows) _ found k in
    (index, (found, (j, m, ok-injective _ _ e)))

-- An amount of zero is dust under any rule.
classify-scan :
    (found : Dict (List DustRule)) (tr : NormalizedTransfer) (amount : ℕ) (r : DustRule)
    → natural_amount tr.amount_raw ≡ some amount
    → scan_rules tr.block_time amount (reverse (get_or found (trim_space tr.asset_key) []))
      ≡ verdict amount r
    → classify_dust found tr ≡ verdict amount r
unfolding classify_dust
classify-scan found tr amount r n v = rw (classify_dust, n) (ground (arith, v))

-- Where a classifier is built, a transfer whose amount is a natural number, and that falls in the
-- window of a row for its asset, is dust exactly if its amount is at most the row's threshold.
pub build_dust_classifier-row :
    (rows : List DustThreshold) (classify : NormalizedTransfer → DustStatus) (row : DustThreshold)
    (r : DustRule) (tr : NormalizedTransfer) (amount : ℕ)
    → build_dust_classifier rows ≡ ok classify
    → In row rows
    → rule_of row ≡ ok (trim_space tr.asset_key, r)
    → covers tr.block_time r ≡ true
    → natural_amount tr.amount_raw ≡ some amount
    → classify tr ≡ (if leb amount r.threshold then dust_true else dust_false)
unfolding build_dust_classifier build_rules classify_dust
build_dust_classifier-row rows classify row r tr amount h i g c n =
    let (index, (found, (j, m, e))) = built rows classify h in
    let (clear, sorted, held) =
      sort_rules-holds index found (trim_space tr.asset_key) r m
        (index-holds [] index rows row (trim_space tr.asset_key) r j i g) in
    rw (← e) (
      classify-scan found tr amount r n (
        scan-reverse tr.block_time amount r (get_or found (trim_space tr.asset_key) []) sorted clear
          held c))
