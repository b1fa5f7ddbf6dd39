-- ===== src/Pipeline/Dust.antt =====
-- internal/pipeline/wallet_runner.go, `buildDustClassifier`: the thresholds of each asset become
-- rules in order of time, which may not overlap, and the classifier reads the rule of an instant.
pub mod Order
pub mod Classify
pub mod Build
use poison_trace.Base.{
  ℕ, ℤ, pos, negsuc, Bool, true, false, not, ◌&&◌, ◌||◌, List, [], ◌∷◌, ◌++◌, reverse, Option, none,
  some, if◌then◌else◌, leb, ◌==◌,
}
use poison_trace.Text.{Str, codes, is_empty}
use poison_trace.Text.Digits.{big_int}
use poison_trace.Text.Sort.{sort_by}
use poison_trace.Text.Trim.{trim_space}
use poison_trace.Time.{Time, before, after}
use poison_trace.Text.Quote.{quote}
use poison_trace.Time.Format.{format_rfc3339}
use poison_trace.Errors.{ErrorChain, Result, ok, err, plain, ◌>>=◌}
use poison_trace.Dict.{Dict, get_or, put}
use poison_trace.Transactions.{NormalizedTransfer, DustStatus, dust_true, dust_false, dust_unknown}

-- A row of the threshold table (`storage.DustThreshold`).
pub record DustThreshold : Type 0 where
  pub asset_key : Str
  pub amount_raw : Str
  pub active_from : Time
  pub active_to : Option Time

pub record DustRule : Type 0 where
  pub from : Time
  pub to : Option Time
  pub threshold : ℕ

-- An amount that is a number and not negative.
unfoldable pub natural_amount : Str → Option ℕ
natural_amount raw = elim (big_int (trim_space raw)) [
  | none ↦ none
  | some (pos n) ↦ some n
  | some (negsuc n) ↦ none
]

-- `rec.ActiveTo != nil && !toUTC.After(from)`.
abbrev ends_too_soon : Time → Option Time → Bool
ends_too_soon from none = false
ends_too_soon from (some to) = not (after to from)

empty_asset : DustThreshold → ErrorChain
empty_asset row = plain (
    codes "invalid dust threshold row: asset_key is empty (active_from="
    ++ (format_rfc3339 row.active_from ++ codes ")"))

no_amount : Str → DustThreshold → ErrorChain
no_amount asset row = plain (
    codes "invalid dust threshold row for asset "
    ++ (asset ++ (codes ": dust_amount_raw_threshold=" ++ quote row.amount_raw)))

no_window : Str → ErrorChain
no_window asset = plain (
    codes "invalid dust threshold window for asset "
    ++ (asset ++ codes ": active_to must be greater than active_from"))

-- The body of the first loop, up to the append.
unfoldable pub rule_of : DustThreshold → Result (Str × DustRule)
unfolding empty_asset no_amount no_window
rule_of row =
    let asset = trim_space row.asset_key in
    if is_empty asset then err (empty_asset row) else elim (natural_amount row.amount_raw) [
      | none ↦ err (no_amount asset row)
      | some v ↦
          if ends_too_soon row.active_from row.active_to
          then err (no_window asset)
          else ok (asset, record { from = row.active_from; to = row.active_to; threshold = v })
    ]

unfoldable pub index_rules :
    Dict (List DustRule) → List DustThreshold → Result (Dict (List DustRule))
index_rules index [] = ok index
index_rules index (row ∷ rows) = elim (rule_of row) [
  | err e ↦ err e
  | ok (asset, rule) ↦ index_rules (put index asset (get_or index asset [] ++ rule ∷ [])) rows
]

unfoldable pub starts_before : DustRule → DustRule → Bool
starts_before a b = before a.from b.from

-- `prev.To == nil || curr.From.Before(*prev.To)`.
unfoldable pub overlap : DustRule → DustRule → Bool
overlap prev curr = elim prev.to [ none ↦ true | some to ↦ before curr.from to ]

unfoldable pub has_overlap : List DustRule → Bool
unfolding overlap
has_overlap [] = false
has_overlap (r ∷ []) = false
has_overlap (r ∷ q ∷ rules) = overlap r q || has_overlap (q ∷ rules)

-- The loop over the assets: rules are sorted and checked.
unfoldable pub sort_rules : Dict (List DustRule) → Result (Dict (List DustRule))
sort_rules [] = ok []
sort_rules ((asset, rules) ∷ index) =
    let sorted = sort_by starts_before rules in
    let rest = sort_rules index in
    if has_overlap sorted
    then err (plain (codes "overlapping dust threshold windows for asset " ++ asset))
    else (do sorted_index ← rest; ok ((asset, sorted) ∷ sorted_index))

unfoldable pub build_rules : List DustThreshold → Result (Dict (List DustRule))
build_rules rows = do index ← index_rules [] rows; sort_rules index

-- The `continue`s of the classifier's loop.
unfoldable pub covers : Time → DustRule → Bool
covers at rule =
    not (before at rule.from) && (elim rule.to [ none ↦ true | some to ↦ before at to ])

-- The classifier's loop, over the rules from the last to the first.
unfoldable pub scan_rules : Time → ℕ → List DustRule → DustStatus
unfolding covers
scan_rules at amount [] = dust_unknown
scan_rules at amount (rule ∷ rules) =
    let rest = scan_rules at amount rules in
    if not (covers at rule)
    then rest
    else if leb amount rule.threshold
    then dust_true
    else dust_false

unfoldable pub classify_dust : Dict (List DustRule) → NormalizedTransfer → DustStatus
classify_dust index tr = elim (natural_amount tr.amount_raw) [
  | none ↦ dust_unknown
  | some amount ↦
      if amount == 0
      then dust_true
      else scan_rules tr.block_time amount (reverse (get_or index (trim_space tr.asset_key) []))
]

unfoldable pub build_dust_classifier : List DustThreshold → Result (NormalizedTransfer → DustStatus)
build_dust_classifier rows = do index ← build_rules rows; ok (classify_dust index)
