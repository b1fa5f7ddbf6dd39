-- ===== src/Runs.antt =====
-- internal/runs: the statuses and counters of a run, and its time window.
use poison_trace.Base.{ℕ, suc, ◌+◌, ◌-◌, ◌*◌, ℤ, pos, negsuc, Bool, ◌&&◌}
use poison_trace.Time.{Time, day}

pub data RunStatus : Type 0 where
  running succeeded partially_succeeded failed timed_out cancelled : RunStatus

-- `unset` is the empty text, the status of a report that was never filled.
pub data WalletStatus : Type 0 where
  unset : WalletStatus
  queued running succeeded partial failed rate_limited timed_out : WalletStatus
  skipped_invalid skipped_budget : WalletStatus

pub record WalletSyncWindow : Type 0 where
  pub baseline_start : Time
  pub baseline_end : Time
  pub scan_start : Time
  pub scan_end : Time

-- `TruncationWalletRate`, a float, is kept as the two numbers that it divides.
pub record Counters : Type 0 where
  pub wallets_requested : ℕ
  pub wallets_processed : ℕ
  pub wallets_failed : ℕ
  pub wallets_skipped : ℕ
  pub wallet_timeout_count : ℕ
  pub wallet_cap_hit_count : ℕ
  pub truncation_wallet_count : ℕ
  pub truncation_wallet_rate : ℕ × ℕ
  pub transactions_fetched : ℕ
  pub transactions_inserted : ℕ
  pub transactions_linked : ℕ
  pub transactions_failed_normalize : ℕ
  pub owner_unresolved_count : ℕ
  pub unsupported_asset_count : ℕ
  pub decimals_unresolved_count : ℕ
  pub unknown_gate_block_count : ℕ
  pub candidate_block_count : ℕ
  pub counterparties_created : ℕ
  pub counterparties_updated : ℕ
  pub poisoning_candidates_inserted : ℕ
  pub retry_exhausted_count : ℕ

-- `Counters{}`.
abbrev pub zero_counters : Counters
zero_counters = record {
  wallets_requested = 0;
  wallets_processed = 0;
  wallets_failed = 0;
  wallets_skipped = 0;
  wallet_timeout_count = 0;
  wallet_cap_hit_count = 0;
  truncation_wallet_count = 0;
  truncation_wallet_rate = (0, 1);
  transactions_fetched = 0;
  transactions_inserted = 0;
  transactions_linked = 0;
  transactions_failed_normalize = 0;
  owner_unresolved_count = 0;
  unsupported_asset_count = 0;
  decimals_unresolved_count = 0;
  unknown_gate_block_count = 0;
  candidate_block_count = 0;
  counterparties_created = 0;
  counterparties_updated = 0;
  poisoning_candidates_inserted = 0;
  retry_exhausted_count = 0;
}

unfoldable pub is_partial : Bool → Bool → Bool
is_partial progress_persisted hard_failure = progress_persisted && hard_failure

-- `t.AddDate(0, 0, -days)`: in UTC every day has 24 hours. No date lies before year 1.
abbrev pub days_before : ℤ → Time → Time
days_before (pos n) t = t - n * day
days_before (negsuc n) t = t + suc n * day

unfoldable pub build_window : Time → Time → ℤ → WalletSyncWindow
build_window scan_start scan_end baseline_lookback_days = record {
  baseline_start = days_before baseline_lookback_days scan_start;
  baseline_end = scan_start;
  scan_start = scan_start;
  scan_end = scan_end;
}
