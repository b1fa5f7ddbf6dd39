-- ===== src/Tests/Stores.antt =====
-- A whole run of one wallet with a store that accepts everything, and a provider that is down.
use poison_trace.Errors.Actions.{proceed, within}
use poison_trace.Text.Trim.{is_blank}
use poison_trace.Base.{◌&&◌, ℕ, ◌+◌, pos, true, false, [], length, none, some, ◌≡◌, refl}
use poison_trace.Text.{codes}
use poison_trace.Time.{day}
use poison_trace.Errors.{Result, ok, plain}
use poison_trace.Helius.{is_retryable, Client, refused}
use poison_trace.Runs.{WalletSyncWindow}
use poison_trace.Pipeline.Validation.{
  validate_core_sync_params, validate_lookalike_and_injection_params, CoreSyncParams,
}
use poison_trace.Pipeline.Fetch.{
  fetch_loop, fetch_page_with_retry, after_retry, after_request, fetch_enhanced_window,
  FetchWindowResult, helius_retry_exhausted,
}
use poison_trace.Pipeline.Core.{normalize_loop, normalize_window, NormalizeWindowResult}
use poison_trace.Pipeline.Core.Sync.{sync_windows, CoreSyncResult, assemble, run_wallet_core_sync}
use poison_trace.Pipeline.Core.Baseline.{run_wallet_core_sync-partial}
use poison_trace.Pipeline.Runner.{Store, WalletRunLimits}
use poison_trace.Pipeline.Runner.Run.{Locals, initial}
use poison_trace.Pipeline.Runner.Finish.{final_state, report_of}
use poison_trace.Pipeline.Runner.Reason.{final_state-reason}
use poison_trace.Tests.Data.{focal, no_hash, noon, lookalike}

-- The provider answers 503, and a wait ends at once.
abbrev down : {S : Type 0} → Client S
down = record {
  fetch_enhanced_page = λ wallet before s.
      (refused (record (plain (codes "unavailable")) { status_code = some 503 }), s);
  sleep = λ d s. (none, s);
}

abbrev sync_params : CoreSyncParams
sync_params = record {
  focal_wallet_address = focal;
  baseline_start = noon;
  baseline_end = noon + day;
  scan_start = noon + day;
  scan_end = noon + day + day;
  max_tx_pages_per_wallet = pos 2;
  max_tx_per_wallet = pos 5;
  max_helius_retries = pos 0;
  helius_request_delay = pos 0;
  lookalike = lookalike;
}

abbrev cut_short : FetchWindowResult
cut_short = record {
  transactions = [];
  partial = true;
  truncation_code = helius_retry_exhausted;
  retry_exhausted = true;
}

abbrev nothing : NormalizeWindowResult
nothing = record {
  transfers = [];
  observations = [];
  fetched_tx = 0;
  failed_normalize = 0;
  owner_unresolved = 0;
  unsupported_asset_count = 0;
  decimals_unresolved = 0;
}

abbrev result : CoreSyncResult
result = assemble sync_params cut_short cut_short nothing nothing

run_wallet_core_sync-partial_example : (result.candidates ≡ []) × (result.incomplete_window ≡ true)
unfolding run_wallet_core_sync validate_core_sync_params is_blank
    validate_lookalike_and_injection_params sync_windows proceed within fetch_enhanced_window
    fetch_loop after_retry fetch_page_with_retry after_request is_retryable normalize_window
    normalize_loop assemble
run_wallet_core_sync-partial_example =
    run_wallet_core_sync-partial no_hash (some down) sync_params none tt result refl refl

-- A store that accepts everything and counts its calls.
abbrev count_call : {A : Type 0} → A → ℕ → Result A × ℕ
count_call a n = (ok a, n + 1)

abbrev open_store : Store ℕ
open_store = record {
  ensure_wallet = λ w. count_call 1;
  create_wallet_sync_run = λ r w window. count_call 2;
  list_dust_thresholds = λ from to. count_call [];
  upsert_normalized_transfers = λ trs. count_call (length trs);
  link_wallet_transfer = λ w r tr. count_call true;
  upsert_counterparty_event = λ e. count_call (true, false);
  insert_poisoning_candidates = λ r w cs. count_call (length cs);
  update_wallet_sync_progress = λ r p. count_call tt;
  update_wallet_last_synced_at = λ w t. count_call tt;
  finalize_wallet_sync_run = λ r f. count_call tt;
  deadline_passed = λ n. false;
}

abbrev run_window : WalletSyncWindow
run_window = record {
  baseline_start = noon;
  baseline_end = noon + day;
  scan_start = noon + day;
  scan_end = noon + day + day;
}

abbrev run_limits : WalletRunLimits
run_limits = record {
  max_tx_pages_per_wallet = pos 2;
  max_tx_per_wallet = pos 5;
  max_helius_retries = pos 0;
  helius_request_delay = pos 0;
}

-- The variables of a run that lost its progress and its reason.
abbrev cut_off : Locals
cut_off = record initial { progress = record initial.progress { incomplete_window = true } }

final_state-reason_example :
    (((final_state cut_off).incomplete && is_blank (final_state cut_off).reason) ≡ false)
    × ((report_of cut_off).wallet_status ≡ (final_state cut_off).status)
    × ((report_of cut_off).incomplete_window ≡ (final_state cut_off).incomplete)
final_state-reason_example = final_state-reason cut_off
