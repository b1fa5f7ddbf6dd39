-- ===== src/Pipeline/Validation.antt =====
-- internal/pipeline/validation.go: the checks of parameters. An error is the constructor for its text.
use poison_trace.Base.{ℤ, pos, Bool, ◌||◌, not, Option, none, some, ltb_ℤ, if◌then◌else◌, ◌==◌}
use poison_trace.Text.{Str, codes}
use poison_trace.Text.Trim.{is_blank}
use poison_trace.Time.{Time, before}

pub data ParamError : Type 0 where
  focal_wallet_required invalid_windows baseline_not_at_scan_start max_pages_too_small : ParamError
  max_tx_too_small max_retries_negative request_delay_negative recency_days_too_small : ParamError
  thresholds_too_small thresholds_below_phase_minimums min_injection_too_small : ParamError

-- The text of an error.
unfoldable pub error_text : ParamError → Str
error_text focal_wallet_required = codes "focal wallet address is required"
error_text invalid_windows = codes "invalid baseline/scan windows"
error_text baseline_not_at_scan_start = codes "baseline end must equal scan start"
error_text max_pages_too_small = codes "max tx pages per wallet must be >= 1"
error_text max_tx_too_small = codes "max tx per wallet must be >= 1"
error_text max_retries_negative = codes "max helius retries must be >= 0"
error_text request_delay_negative = codes "helius request delay must be >= 0"
error_text recency_days_too_small = codes "lookalike recency days must be >= 1"
error_text thresholds_too_small = codes "lookalike thresholds must be >= 1"
error_text thresholds_below_phase_minimums =
    codes "lookalike thresholds must satisfy phase1 minimums: prefix>=4, suffix>=4, single-side>=6"
error_text min_injection_too_small = codes "min injection count must be >= 1"

-- The parameters of the lookalike match that both structs of parameters share.
pub record LookalikeParams : Type 0 where
  pub recency_days : ℤ
  pub prefix_min : ℤ
  pub suffix_min : ℤ
  pub single_side_min : ℤ
  pub min_injection_count : ℤ

unfoldable pub validate_lookalike_and_injection_params : LookalikeParams → Option ParamError
validate_lookalike_and_injection_params p =
    if ltb_ℤ p.recency_days (pos 1)
    then some recency_days_too_small
    else if ltb_ℤ p.prefix_min (pos 1)
        || ltb_ℤ p.suffix_min (pos 1)
        || ltb_ℤ p.single_side_min (pos 1)
    then some thresholds_too_small
    else if ltb_ℤ p.prefix_min (pos 4)
        || ltb_ℤ p.suffix_min (pos 4)
        || ltb_ℤ p.single_side_min (pos 6)
    then some thresholds_below_phase_minimums
    else if ltb_ℤ p.min_injection_count (pos 1)
    then some min_injection_too_small
    else none

pub record CandidateMaterializeParams : Type 0 where
  pub baseline_complete : Bool
  pub lookalike : LookalikeParams

unfoldable pub validate_candidate_materialize_params :
    CandidateMaterializeParams → Option ParamError
validate_candidate_materialize_params p = validate_lookalike_and_injection_params p.lookalike

-- The request delay is a `time.Duration`, a signed number of nanoseconds.
pub record CoreSyncParams : Type 0 where
  pub focal_wallet_address : Str
  pub baseline_start : Time
  pub baseline_end : Time
  pub scan_start : Time
  pub scan_end : Time
  pub max_tx_pages_per_wallet : ℤ
  pub max_tx_per_wallet : ℤ
  pub max_helius_retries : ℤ
  pub helius_request_delay : ℤ
  pub lookalike : LookalikeParams

unfoldable pub validate_core_sync_params : CoreSyncParams → Option ParamError
validate_core_sync_params p =
    if is_blank p.focal_wallet_address
    then some focal_wallet_required
    else if not (before p.baseline_start p.baseline_end) || not (before p.scan_start p.scan_end)
    then some invalid_windows
    else if not (p.baseline_end == p.scan_start)
    then some baseline_not_at_scan_start
    else if ltb_ℤ p.max_tx_pages_per_wallet (pos 1)
    then some max_pages_too_small
    else if ltb_ℤ p.max_tx_per_wallet (pos 1)
    then some max_tx_too_small
    else if ltb_ℤ p.max_helius_retries (pos 0)
    then some max_retries_negative
    else if ltb_ℤ p.helius_request_delay (pos 0)
    then some request_delay_negative
    else validate_lookalike_and_injection_params p.lookalike
