-- ===== src/Pipeline/Core/Sync.antt =====
-- `RunWalletCoreSync`: the two windows of one wallet.
use poison_trace.Base.{ℕ, ◌+◌, Bool, not, ◌||◌, List, [], ◌∷◌, Option, none, some}
use poison_trace.Text.{Str, codes}
use poison_trace.Time.{Time}
use poison_trace.Errors.{ok, err, plain, Action}
use poison_trace.Errors.Actions.{◌>>=◌, done, within}
use poison_trace.Dict.{Dict}
use poison_trace.Helius.{Client}
use poison_trace.Transactions.{NormalizedTransfer}
use poison_trace.Counterparties.{Counterparty}
use poison_trace.Pipeline.Validation.{
  CoreSyncParams, CandidateMaterializeParams, validate_core_sync_params, error_text,
}
use poison_trace.Pipeline.Candidate.{WalletTransferObservation, PoisoningCandidate}
use poison_trace.Pipeline.Candidate.Materialize.{materialize_candidates}
use poison_trace.Pipeline.Fetch.{
  TruncationCode, no_code, max_tx_pages_per_wallet_reached, max_tx_per_wallet_reached,
  helius_retry_exhausted, FetchWindowParams, FetchWindowResult, fetch_enhanced_window,
}
use poison_trace.Pipeline.Core.{
  NormalizeWindowResult, Classifier, normalize_window, apply_observations_to_counterparties,
  truncation_reason, merge_reasons,
}

-- The text of a truncation code.
unfoldable pub code_text : TruncationCode → Str
code_text no_code = []
code_text max_tx_pages_per_wallet_reached = codes "max_tx_pages_per_wallet_reached"
code_text max_tx_per_wallet_reached = codes "max_tx_per_wallet_reached"
code_text helius_retry_exhausted = codes "helius_retry_exhausted"

pub record CoreSyncResult : Type 0 where
  pub baseline_transfers : List NormalizedTransfer
  pub scan_transfers : List NormalizedTransfer
  pub baseline_observations : List WalletTransferObservation
  pub scan_observations : List WalletTransferObservation
  pub counterparties : Dict Counterparty
  pub candidates : List PoisoningCandidate
  pub baseline_complete : Bool
  pub incomplete_window : Bool
  pub unknown_gate_reason : Str
  pub baseline_truncation : TruncationCode
  pub scan_truncation : TruncationCode
  pub transactions_fetched : ℕ
  pub transactions_failed_normalize : ℕ
  pub owner_unresolved_count : ℕ
  pub unsupported_asset_count : ℕ
  pub decimals_unresolved_count : ℕ
  pub unknown_gate_block_count : ℕ
  pub candidate_block_count : ℕ
  pub retry_exhausted : Bool

unfoldable pub window_params : CoreSyncParams → Time → Time → FetchWindowParams
window_params p start end = record {
  start = start;
  end = end;
  max_pages = p.max_tx_pages_per_wallet;
  max_tx = p.max_tx_per_wallet;
  max_retries = p.max_helius_retries;
  request_delay = p.helius_request_delay;
}

unfoldable pub materialize_params : CoreSyncParams → Bool → CandidateMaterializeParams
materialize_params p complete = record { baseline_complete = complete; lookalike = p.lookalike }

-- The pure part, behind the fetches and the normalization.
unfoldable pub assemble :
    CoreSyncParams
    → FetchWindowResult
    → FetchWindowResult
    → NormalizeWindowResult
    → NormalizeWindowResult
    → CoreSyncResult
unfolding materialize_params
assemble p baseline_fetch scan_fetch baseline scan =
    let complete = not baseline_fetch.partial in
    let cp_state =
      apply_observations_to_counterparties
        (apply_observations_to_counterparties [] baseline.observations) scan.observations in
    let materialized =
      materialize_candidates baseline.observations scan.observations
        (materialize_params p complete) in
    record {
      baseline_transfers = baseline.transfers;
      scan_transfers = scan.transfers;
      baseline_observations = baseline.observations;
      scan_observations = scan.observations;
      counterparties = cp_state;
      candidates = materialized.candidates;
      baseline_complete = complete;
      incomplete_window =
          baseline_fetch.partial || scan_fetch.partial || materialized.incomplete_window;
      unknown_gate_reason = merge_reasons (
          materialized.unknown_gate_reason
          ∷ truncation_reason (codes "baseline") (code_text baseline_fetch.truncation_code)
          ∷ truncation_reason (codes "scan") (code_text scan_fetch.truncation_code)
          ∷ []);
      baseline_truncation = baseline_fetch.truncation_code;
      scan_truncation = scan_fetch.truncation_code;
      transactions_fetched = baseline.fetched_tx + scan.fetched_tx;
      transactions_failed_normalize = baseline.failed_normalize + scan.failed_normalize;
      owner_unresolved_count = baseline.owner_unresolved + scan.owner_unresolved;
      unsupported_asset_count = baseline.unsupported_asset_count + scan.unsupported_asset_count;
      decimals_unresolved_count = baseline.decimals_unresolved + scan.decimals_unresolved;
      unknown_gate_block_count = materialized.unknown_gate_blocks;
      candidate_block_count = materialized.candidate_blocks;
      retry_exhausted = baseline_fetch.retry_exhausted || scan_fetch.retry_exhausted;
    }

module _ {S : Type 0} (sha256_hex : Str → Str) (client : Option (Client S)) where
  -- The part behind the checks of the parameters.
  unfoldable pub sync_windows : CoreSyncParams → Classifier → Action S CoreSyncResult
  unfolding window_params
  sync_windows p classifier = do
    baseline_fetch ← within (codes "fetch baseline enhanced tx") (
        fetch_enhanced_window client p.focal_wallet_address
          (window_params p p.baseline_start p.baseline_end))
    scan_fetch ← within (codes "fetch scan enhanced tx") (
        fetch_enhanced_window client p.focal_wallet_address
          (window_params p p.scan_start p.scan_end))
    baseline ← within (codes "normalize baseline transfers") (
        done (
          normalize_window sha256_hex p.focal_wallet_address classifier
            baseline_fetch.transactions))
    scan ← within (codes "normalize scan transfers") (
        done
          (normalize_window sha256_hex p.focal_wallet_address classifier scan_fetch.transactions))
    done (ok (assemble p baseline_fetch scan_fetch baseline scan))

  unfoldable pub run_wallet_core_sync : CoreSyncParams → Classifier → Action S CoreSyncResult
  run_wallet_core_sync p classifier s = elim (validate_core_sync_params p) [
    | some e ↦ (err (plain (error_text e)), s)
    | none ↦ elim client [
      | none ↦ (err (plain (codes "helius client is required")), s)
      | some _ ↦ sync_windows p classifier s
    ]
  ]
