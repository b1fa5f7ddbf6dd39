-- ===== src/Pipeline/Runner.antt =====
-- internal/pipeline/wallet_runner.go: one wallet is synced, its results are stored, and its sync run is
-- finalized. The store (a database) is a parameter.
pub mod Dedupe
pub mod Run
pub mod Steps
pub mod Body
pub mod Finish
pub mod Status
pub mod Reason
use poison_trace.Base.{
  ℕ, ◌+◌, ℤ, pos, Bool, true, false, not, ◌&&◌, ◌||◌, List, [], ◌∷◌, ◌++◌, Option, none, some,
  if◌then◌else◌,
}
use poison_trace.Text.{Str, codes, is_empty, join}
use poison_trace.Text.Trim.{is_blank}
use poison_trace.Time.{Time}
use poison_trace.Errors.{ErrorChain, Action, Result}
use poison_trace.Dict.{has}
use poison_trace.Transactions.{NormalizedTransfer}
use poison_trace.Counterparties.{RelationType, Event}
use poison_trace.Runs.{WalletStatus, WalletSyncWindow, Counters}
use poison_trace.Pipeline.Candidate.{PoisoningCandidate}
use poison_trace.Pipeline.Core.{truncation_reason}
use poison_trace.Pipeline.Dust.{DustThreshold}

-- The texts that `errorCode` can be; `no_error` is the empty one.
pub data ErrorCode : Type 0 where
  no_error dust_threshold_load_failed core_sync_failed transfer_upsert_failed : ErrorCode
  wallet_transfer_link_failed counterparty_upsert_failed candidate_insert_failed : ErrorCode
  wallet_sync_progress_update_failed wallet_last_synced_update_failed : ErrorCode

-- `storage.WalletSyncProgress`.
pub record WalletSyncProgress : Type 0 where
  pub baseline_complete : Bool
  pub incomplete_window : Bool
  pub unknown_gate_reason : Str
  pub truncation_reason : Str
  pub transactions_fetched : ℕ
  pub transactions_inserted : ℕ
  pub transactions_linked : ℕ
  pub transactions_failed_normalize : ℕ
  pub counterparties_created : ℕ
  pub counterparties_updated : ℕ
  pub unsupported_asset_count : ℕ
  pub unknown_gate_block_count : ℕ
  pub candidate_block_count : ℕ
  pub poisoning_candidates_inserted : ℕ

abbrev pub zero_progress : WalletSyncProgress
zero_progress = record {
  baseline_complete = false;
  incomplete_window = false;
  unknown_gate_reason = [];
  truncation_reason = [];
  transactions_fetched = 0;
  transactions_inserted = 0;
  transactions_linked = 0;
  transactions_failed_normalize = 0;
  counterparties_created = 0;
  counterparties_updated = 0;
  unsupported_asset_count = 0;
  unknown_gate_block_count = 0;
  candidate_block_count = 0;
  poisoning_candidates_inserted = 0;
}

-- What `FinalizeWalletSyncRun` is given, but for the time of the call.
pub record FinalState : Type 0 where
  pub status : WalletStatus
  pub incomplete : Bool
  pub reason : Str
  pub error_code : ErrorCode
  pub error_message : Str
  pub notes : Str

-- `WalletExecutionStore`, and whether the context's deadline has passed. The rows of the candidates
-- have the fields of the candidates.
pub record Store (S : Type 0) : Type 0 where
  pub ensure_wallet : Str → Action S ℕ
  pub create_wallet_sync_run : ℕ → ℕ → WalletSyncWindow → Action S ℕ
  pub list_dust_thresholds : Time → Time → Action S (List DustThreshold)
  pub upsert_normalized_transfers : List NormalizedTransfer → Action S ℕ
  pub link_wallet_transfer : ℕ → RelationType → NormalizedTransfer → Action S Bool
  pub upsert_counterparty_event : Event → Action S (Bool × Bool)
  pub insert_poisoning_candidates : ℕ → ℕ → List PoisoningCandidate → Action S ℕ
  pub update_wallet_sync_progress : ℕ → WalletSyncProgress → Action S (Unit {0})
  pub update_wallet_last_synced_at : ℕ → Time → Action S (Unit {0})
  pub finalize_wallet_sync_run : ℕ → FinalState → Action S (Unit {0})
  pub deadline_passed : S → Bool

-- The key of a transfer in `seen`.
unfoldable pub transfer_key : NormalizedTransfer → Str
transfer_key tr = tr.signature ++ 0 ∷ tr.transfer_fingerprint

dedupe_from : List Str → List NormalizedTransfer → List NormalizedTransfer
dedupe_from seen [] = []
dedupe_from seen (tr ∷ trs) =
    let repeated = dedupe_from seen trs in
    let fresh = dedupe_from (transfer_key tr ∷ seen) trs in
    if has seen (transfer_key tr) then repeated else tr ∷ fresh

unfoldable pub dedupe_transfers : List NormalizedTransfer → List NormalizedTransfer
unfolding dedupe_from
dedupe_transfers trs = dedupe_from [] trs

unfoldable pub merge_truncation_reason : Str → Str → Str
merge_truncation_reason baseline_code scan_code = join (codes ";") (
    (if is_blank baseline_code then [] else truncation_reason (codes "baseline") baseline_code ∷ [])
    ++ (if is_blank scan_code then [] else truncation_reason (codes "scan") scan_code ∷ []))

-- `WalletRunReport`.
pub record WalletRunReport : Type 0 where
  pub wallet_status : WalletStatus
  pub incomplete_window : Bool
  pub truncation_observed : Bool
  pub truncation_reason : Str
  pub counters : Counters

-- `WalletRunLimits`; the delay is in nanoseconds.
pub record WalletRunLimits : Type 0 where
  pub max_tx_pages_per_wallet : ℤ
  pub max_tx_per_wallet : ℤ
  pub max_helius_retries : ℤ
  pub helius_request_delay : ℤ

-- The fields of `RunParams` that the runner and the orchestrator read.
pub record RunParams : Type 0 where
  pub wallet_addresses : List Str
  pub scan_start : Time
  pub scan_end : Time
  pub baseline_lookback_days : ℤ
  pub ingestion_run_id : ℕ
