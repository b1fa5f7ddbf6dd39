-- ===== src/Pipeline/Candidate/Lookalike.antt =====
-- The lookalike match: common prefix and suffix, the best legitimate address, and its recency.
pub mod Affix
pub mod BestMatch
use poison_trace.Base.{
  ℕ, zero, suc, ◌+◌, ◌-◌, ◌*◌, ◌/◌, ◌%◌, ℤ, pos, negsuc, leb_ℤ, ltb, leb, ◌==◌, Bool, true, false,
  not, ◌&&◌, ◌||◌, List, [], ◌∷◌, reverse, Option, none, some, if◌then◌else◌, foldl,
}
use poison_trace.Text.{Str, str_eq, str_lt, is_empty}
use poison_trace.Time.{Time, is_zero, sub, day, duration_mod, max_duration}
use poison_trace.Dict.{Dict, get_or}
use poison_trace.Pipeline.Detection.{GateState, pass, fail, unknown}
use poison_trace.Pipeline.Validation.{LookalikeParams, CandidateMaterializeParams}
use poison_trace.Pipeline.Candidate.{WalletTransferObservation}

-- The loop stops at the first difference, or at the end of the shorter text.
unfoldable pub common_prefix_length : Str → Str → ℕ
common_prefix_length [] b = 0
common_prefix_length (x ∷ a) [] = 0
common_prefix_length (x ∷ a) (y ∷ b) =
    let rest = common_prefix_length a b in if x == y then suc rest else 0

-- The loop reads both texts from their ends.
unfoldable pub common_suffix_length : Str → Str → ℕ
common_suffix_length a b = common_prefix_length (reverse a) (reverse b)

unfoldable pub passes_lookalike_threshold : ℕ → ℕ → LookalikeParams → Bool
passes_lookalike_threshold prefix suffix p =
    (leb_ℤ p.prefix_min (pos prefix) && leb_ℤ p.suffix_min (pos suffix))
    || leb_ℤ p.single_side_min (pos prefix)
    || leb_ℤ p.single_side_min (pos suffix)

-- `bestScore` and `matchedLegit`; no score stands for -1.
pub record Best : Type 0 where
  pub score : Option ℕ
  pub matched : Str

abbrev pub no_best : Best
no_best = record { score = none; matched = [] }

unfoldable pub match_score : Str → Str → ℕ
match_score address candidate =
    common_prefix_length address candidate + common_suffix_length address candidate

-- `score > bestScore || (score == bestScore && candidate < matchedLegit)`.
unfoldable pub beats : ℕ → Str → Best → Bool
beats score candidate best = elim best.score [
  | none ↦ true
  | some best_score ↦ ltb best_score score || (score == best_score && str_lt candidate best.matched)
]

unfoldable pub is_lookalike : Str → Str → LookalikeParams → Bool
is_lookalike address candidate p =
    passes_lookalike_threshold (common_prefix_length address candidate)
      (common_suffix_length address candidate) p

-- The body of the loop over the legitimate addresses.
unfoldable pub best_step : Str → LookalikeParams → Best → Str × Time → Best
unfolding match_score beats is_lookalike
best_step address p best (candidate, _) =
    let score = match_score address candidate in
    if not (is_lookalike address candidate p)
    then best
    else if beats score candidate best
    then record { score = some score; matched = candidate }
    else best

unfoldable pub best_match : Str → LookalikeParams → Dict Time → Best
best_match address p legit = foldl (best_step address p) no_best legit

-- `time.Duration(days) * 24 * time.Hour`, as its bits.
unfoldable pub recency_limit : ℤ → ℕ
recency_limit (pos days) = (days * day) % duration_mod
recency_limit (negsuc n) = (duration_mod - (suc n * day) % duration_mod) % duration_mod

-- `delta > limit` for a positive delta.
unfoldable pub exceeds : ℕ → ℕ → Bool
exceeds delta limit = ltb max_duration limit || ltb limit delta

pub record LookalikeResult : Type 0 where
  pub matched_legit : Str
  pub recency_days : ℕ
  pub recency_gate : GateState
  pub lookalike_gate : GateState

abbrev result : Str → ℕ → GateState → GateState → LookalikeResult
result m d r l = record {
  matched_legit = m;
  recency_days = d;
  recency_gate = r;
  lookalike_gate = l;
}

-- The part behind the loop. Block times are whole seconds, so `int(delta.Hours() / 24)` is the
-- quotient of whole numbers.
unfoldable pub evaluate_recency : Str → Time → Time → LookalikeParams → LookalikeResult
unfolding recency_limit exceeds
evaluate_recency matched legit_at suspicious_at p =
    let delta = sub suspicious_at legit_at in
    if is_zero legit_at || is_zero suspicious_at
    then result matched 0 unknown pass
    else if leb suspicious_at legit_at
    then result matched 0 fail pass
    else if exceeds delta (recency_limit p.recency_days)
    then result matched (delta / day) fail pass
    else result matched (delta / day) pass pass

unfoldable pub evaluate_lookalike_and_recency :
    WalletTransferObservation → Dict Time → CandidateMaterializeParams → LookalikeResult
evaluate_lookalike_and_recency obs legit p =
    let matched = (best_match obs.counterparty_address p.lookalike legit).matched in
    if not p.baseline_complete
    then result [] 0 unknown unknown
    else if is_empty matched
    then result [] 0 fail fail
    else evaluate_recency matched (get_or legit matched 0) obs.transfer.block_time p.lookalike
