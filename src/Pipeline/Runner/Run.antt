-- ===== src/Pipeline/Runner/Run.antt =====
-- `RunWallet`. Its local variables are a record, which the deferred finalization reads; an action on
-- the variables and the world ends with the first error, after the assignments of that error's branch.
use poison_trace.Base.{ℕ, Bool, true, false, not, ◌&&◌, ◌||◌, [], ◌∷◌, if◌then◌else◌}
use poison_trace.Text.{Str, codes, is_empty}
use poison_trace.Text.Trim.{is_blank}
use poison_trace.Errors.{ErrorChain}
use poison_trace.Runs.{WalletStatus, Counters, zero_counters, is_partial}
use poison_trace.Pipeline.Core.{merge_reasons, truncation_reason}
use poison_trace.Pipeline.Core.Sync.{CoreSyncResult, code_text}
use poison_trace.Pipeline.Runner.{
  ErrorCode, no_error, core_sync_failed, WalletSyncProgress, zero_progress, merge_truncation_reason,
}

-- The local variables of `RunWallet` that live across its calls.
pub record Locals : Type 0 where
  pub progress : WalletSyncProgress
  pub status : WalletStatus
  pub error_code : ErrorCode
  pub error_message : Str
  pub notes : Str
  pub progress_persisted : Bool
  pub counters : Counters

abbrev pub initial : Locals
initial = record {
  progress = zero_progress;
  status = WalletStatus.failed;
  error_code = no_error;
  error_message = [];
  notes = [];
  progress_persisted = false;
  counters = zero_counters;
}

-- `progress.IncompleteWindow = true` and the reason that goes with it.
abbrev pub mark_incomplete : Str → WalletSyncProgress → WalletSyncProgress
mark_incomplete reason progress = record progress {
  incomplete_window = true;
  unknown_gate_reason = merge_reasons (progress.unknown_gate_reason ∷ reason ∷ []);
}

-- The assignments of an error branch that leaves the run failed, or partial.
abbrev pub fail_with : ErrorCode → ErrorChain → Locals → Locals
fail_with code e l = record l {
  error_code = code;
  error_message = e.message;
  status = WalletStatus.failed;
}

abbrev pub partial_with : ErrorCode → Str → ErrorChain → Locals → Locals
partial_with code reason e l = record l {
  error_code = code;
  error_message = e.message;
  status = WalletStatus.partial;
  progress = mark_incomplete reason l.progress;
}

-- The branches after a failed core sync.
unfoldable pub core_sync_error : Bool → ErrorChain → Locals → Locals
core_sync_error deadline e l =
    if e.is_deadline_exceeded || deadline
    then record l {
      error_code = core_sync_failed;
      error_message = e.message;
      status = WalletStatus.timed_out;
      progress = mark_incomplete (codes "unknown_required_gates:wallet_runner_timeout") l.progress;
    }
    else if is_partial l.progress_persisted true
    then partial_with core_sync_failed (codes "unknown_required_gates:wallet_runner_failure") e l
    else fail_with core_sync_failed e l

-- The counters that are copied from the core's result.
unfoldable pub copy_counters : CoreSyncResult → Locals → Locals
copy_counters res l = record l {
  counters = record l.counters {
    transactions_fetched = res.transactions_fetched;
    transactions_failed_normalize = res.transactions_failed_normalize;
    owner_unresolved_count = res.owner_unresolved_count;
    unsupported_asset_count = res.unsupported_asset_count;
    decimals_unresolved_count = res.decimals_unresolved_count;
    unknown_gate_block_count = res.unknown_gate_block_count;
    candidate_block_count = res.candidate_block_count;
    retry_exhausted_count = if res.retry_exhausted then 1 else l.counters.retry_exhausted_count;
  };
}

-- The literal `progress` and the two `if`s behind it.
unfoldable pub core_progress : CoreSyncResult → ℕ → Counters → WalletSyncProgress
core_progress res inserted counters =
    let truncation =
      merge_truncation_reason (code_text res.baseline_truncation) (code_text res.scan_truncation) in
    let truncated = not (is_empty truncation) in
    let reason =
      if truncated
      then merge_reasons (
          res.unknown_gate_reason
          ∷ truncation_reason (codes "baseline") (code_text res.baseline_truncation)
          ∷ truncation_reason (codes "scan") (code_text res.scan_truncation)
          ∷ [])
      else res.unknown_gate_reason in
    let incomplete = truncated || res.incomplete_window in
    record {
      baseline_complete = res.baseline_complete;
      incomplete_window = incomplete;
      unknown_gate_reason =
          if incomplete && is_blank reason
          then codes "unknown_required_gates:incomplete_window"
          else reason;
      truncation_reason = truncation;
      transactions_fetched = res.transactions_fetched;
      transactions_inserted = counters.transactions_inserted;
      transactions_linked = counters.transactions_linked;
      transactions_failed_normalize = res.transactions_failed_normalize;
      counterparties_created = counters.counterparties_created;
      counterparties_updated = counters.counterparties_updated;
      unsupported_asset_count = res.unsupported_asset_count;
      unknown_gate_block_count = res.unknown_gate_block_count;
      candidate_block_count = res.candidate_block_count;
      poisoning_candidates_inserted = inserted;
    }
