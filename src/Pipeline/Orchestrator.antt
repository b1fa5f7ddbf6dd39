-- ===== src/Pipeline/Orchestrator.antt =====
-- internal/pipeline/orchestrator.go: one wallet, with locks or without, and the outcomes of a run's wallets
-- summed into the run's counters, status and error. The wallets run concurrently; their outcomes
-- arrive in any order.
pub mod Lock
pub mod Totals
pub mod CapHits
pub mod Success
pub mod Run
use poison_trace.Base.{
  ℕ, ◌+◌, ◌*◌, ℤ, pos, ltb_ℤ, add_int64, mul_int64, ltb, Bool, true, false, not, ◌&&◌, ◌||◌, List,
  [], ◌∷◌, ◌++◌, Option, none, some, if◌then◌else◌, ◌==◌, foldl, length,
}
use poison_trace.Text.{Str, codes, str_eq, str_lt, contains, join}
use poison_trace.Text.Sort.{sort_by}
use poison_trace.Errors.{ErrorChain, Action, Result, ok, err, plain, wrap}
use poison_trace.Config.{Config}
use poison_trace.Runs.{RunStatus, WalletStatus, Counters, zero_counters}
use poison_trace.Pipeline.Core.{bump}
use poison_trace.Pipeline.Runner.{WalletRunReport, WalletRunLimits, RunParams}
use poison_trace.Pipeline.Runner.Finish.{empty_report as failed_report}

pub record WalletOutcome : Type 0 where
  pub address : Str
  pub report : WalletRunReport
  pub error : Option ErrorChain

unfoldable pub err_string : WalletOutcome → Str
err_string o = elim o.error [ none ↦ [] | some e ↦ e.message ]

-- The order of the outcomes: by address, then by error text.
unfoldable pub outcome_before : WalletOutcome → WalletOutcome → Bool
unfolding err_string
outcome_before a b =
    if str_eq a.address b.address
    then str_lt (err_string a) (err_string b)
    else str_lt a.address b.address

abbrev pub is_timed_out : WalletStatus → Bool
is_timed_out WalletStatus.timed_out = true
is_timed_out _ = false

abbrev pub is_partial_status : WalletStatus → Bool
is_partial_status WalletStatus.partial = true
is_partial_status _ = false

-- `strings.Contains(reason, "max_pages_cap") || strings.Contains(reason, "max_tx_cap")`.
unfoldable pub is_cap_hit : Str → Bool
is_cap_hit reason = contains reason (codes "max_pages_cap") || contains reason (codes "max_tx_cap")

-- The counters that are summed over the wallets, whatever their errors.
unfoldable pub add_report : Counters → WalletRunReport → Counters
add_report total report = record total {
  truncation_wallet_count = bump report.truncation_observed total.truncation_wallet_count;
  transactions_fetched = total.transactions_fetched + report.counters.transactions_fetched;
  transactions_inserted = total.transactions_inserted + report.counters.transactions_inserted;
  transactions_linked = total.transactions_linked + report.counters.transactions_linked;
  transactions_failed_normalize =
      total.transactions_failed_normalize + report.counters.transactions_failed_normalize;
  owner_unresolved_count = total.owner_unresolved_count + report.counters.owner_unresolved_count;
  unsupported_asset_count = total.unsupported_asset_count + report.counters.unsupported_asset_count;
  decimals_unresolved_count =
      total.decimals_unresolved_count + report.counters.decimals_unresolved_count;
  unknown_gate_block_count =
      total.unknown_gate_block_count + report.counters.unknown_gate_block_count;
  candidate_block_count = total.candidate_block_count + report.counters.candidate_block_count;
  counterparties_created = total.counterparties_created + report.counters.counterparties_created;
  counterparties_updated = total.counterparties_updated + report.counters.counterparties_updated;
  poisoning_candidates_inserted =
      total.poisoning_candidates_inserted + report.counters.poisoning_candidates_inserted;
  retry_exhausted_count = total.retry_exhausted_count + report.counters.retry_exhausted_count;
  wallet_timeout_count = bump (is_timed_out report.wallet_status) total.wallet_timeout_count;
  wallet_cap_hit_count = bump (is_cap_hit report.truncation_reason) total.wallet_cap_hit_count;
}

-- `total`, `errs` and `partialWallets`.
pub record Tally : Type 0 where
  pub total : Counters
  pub errs : List Str
  pub partial_wallets : ℕ

abbrev pub wallet_error : Str → ErrorChain → Str
wallet_error address e = codes "wallet " ++ (address ++ (codes ": " ++ e.message))

-- The body of the loop over the outcomes, with the `switch` on the error.
unfoldable pub tally_step : Tally → WalletOutcome → Tally
unfolding add_report
tally_step t o =
    let total = add_report t.total o.report in
    elim o.error [
      | none ↦ record {
        total = record total { wallets_processed = total.wallets_processed + 1 };
        errs = t.errs;
        partial_wallets = bump (is_partial_status o.report.wallet_status) t.partial_wallets;
      }
      | some e ↦
          if e.is_wallet_locked
          then record t {
            total = record total { wallets_skipped = total.wallets_skipped + 1 };
            errs = t.errs ++ wallet_error o.address e ∷ [];
          }
          else record t {
            total = record total { wallets_failed = total.wallets_failed + 1 };
            errs = t.errs ++ wallet_error o.address e ∷ [];
          }
    ]

abbrev pub close_rate : Counters → Counters
close_rate total =
    if ltb 0 total.wallets_requested
    then record total {
      truncation_wallet_rate = (total.truncation_wallet_count, total.wallets_requested);
    }
    else total

-- The part of `Run` behind the channel: the outcomes in their order of arrival.
unfoldable pub tally_outcomes : ℕ → List WalletOutcome → Tally
unfolding tally_step
tally_outcomes requested outcomes =
    let t =
      foldl tally_step
        (record {
          total = record zero_counters { wallets_requested = requested };
          errs = [];
          partial_wallets = 0;
        })
        (sort_by outcome_before outcomes) in
    record t { total = close_rate t.total }

unfoldable pub derive_run_status : Option ErrorChain → Counters → ℕ → ℕ → RunStatus
derive_run_status run_err total error_count partial_count =
    let settled : RunStatus =
      if error_count == 0
      then (if ltb 0 partial_count then RunStatus.partially_succeeded else RunStatus.succeeded)
      else if ltb 0 total.wallets_processed || ltb 0 total.wallets_skipped
      then RunStatus.partially_succeeded
      else RunStatus.failed in
    elim run_err [
      | none ↦ settled
      | some e ↦
          if e.is_deadline_exceeded
          then RunStatus.timed_out
          else if e.is_canceled
          then RunStatus.cancelled
          else settled
    ]

-- `WalletRunReport{}`.
abbrev pub empty_report : WalletRunReport
empty_report = record failed_report { wallet_status = WalletStatus.unset }

-- `WalletLockRepository`: the holder's token, if the lock was free.
pub record Locks (S : Type 0) : Type 0 where
  pub acquire_wallet_lock : Str → ℤ → Action S (Option Str)
  pub release_wallet_lock : Str → Str → Action S (Unit {0})

abbrev pub WalletRunner : Type 0 → Type 0
WalletRunner S = Str → RunParams → WalletRunLimits → S → WalletRunReport × Option ErrorChain × S

-- What `runWallet` calls: the locks, which may not be set, the runner and `ctx.Err()`.
pub record WalletWorld (S : Type 0) : Type 0 where
  pub wallet_locks : Option (Locks S)
  pub wallet_runner : WalletRunner S
  pub context_error : S → Option ErrorChain

abbrev pub wallet_lock_ttl_tail_seconds : ℤ
wallet_lock_ttl_tail_seconds = pos (3 + 2 + 1)

-- `time.Millisecond`.
abbrev millisecond : ℤ
millisecond = pos 1_000_000

unfoldable pub limits_of : Config → WalletRunLimits
limits_of cfg = record {
  max_tx_pages_per_wallet = cfg.max_tx_pages_per_wallet;
  max_tx_per_wallet = cfg.max_tx_per_wallet;
  max_helius_retries = cfg.max_helius_retries;
  helius_request_delay = mul_int64 cfg.helius_request_delay_ms millisecond;
}

-- `ErrWalletAlreadyLocked`.
abbrev pub err_wallet_already_locked : ErrorChain
err_wallet_already_locked = record (plain (codes "wallet sync lock is currently held")) {
  is_wallet_locked = true;
}

module _ {S : Type 0} (world : WalletWorld S) (wallet : Str) (p : RunParams) where
  abbrev pub Reply : Type 0
  Reply = WalletRunReport × Option ErrorChain × S

  unfoldable pub wrap_runner : Reply → Reply
  wrap_runner (report, none, s) = (report, none, s)
  wrap_runner (report, some e, s) = (report, some (wrap (codes "wallet runner") e), s)

  -- The last `select`.
  unfoldable pub run_unlocked : WalletRunLimits → S → Reply
  unfolding wrap_runner
  run_unlocked limits s = elim (world.context_error s) [
    | some e ↦ (empty_report, some e, s)
    | none ↦ wrap_runner (world.wallet_runner wallet p limits s)
  ]

  unfoldable pub add_release_error :
      WalletRunReport → Option ErrorChain → Result (Unit {0}) × S → Reply
  add_release_error report e (ok _, s) = (report, e, s)
  add_release_error report none (err f, s) = (report, some (wrap (codes "release lock") f), s)
  add_release_error report (some e) (err f, s) = (
    report,
    some (record e { message = e.message ++ (codes "; release lock: " ++ f.message) }),
    s,
  )

  -- The deferred release.
  unfoldable pub release : Locks S → Str → Reply → Reply
  unfolding add_release_error
  release locks token (report, e, s) =
      add_release_error report e (locks.release_wallet_lock wallet token s)

  unfoldable pub after_acquire : Locks S → WalletRunLimits → Result (Option Str) × S → Reply
  unfolding run_unlocked release
  after_acquire locks limits (err e, s) = (empty_report, some (wrap (codes "acquire lock") e), s)
  after_acquire locks limits (ok none, s) = (empty_report, some err_wallet_already_locked, s)
  after_acquire locks limits (ok (some token), s) = release locks token (run_unlocked limits s)

  -- `lockTTLSeconds`.
  abbrev pub lock_ttl_seconds : Config → ℤ
  lock_ttl_seconds cfg = add_int64 cfg.wallet_sync_timeout_seconds wallet_lock_ttl_tail_seconds

  -- `runWallet` behind the check of its bounds.
  unfoldable pub run_within_limits : Option (Locks S) → Config → WalletRunLimits → S → Reply
  unfolding after_acquire
  run_within_limits none cfg limits s = run_unlocked limits s
  run_within_limits (some locks) cfg limits s =
      after_acquire locks limits (locks.acquire_wallet_lock wallet (lock_ttl_seconds cfg) s)

  -- `runWallet`.
  unfoldable pub run_one_wallet : Config → S → Reply
  unfolding run_within_limits limits_of
  run_one_wallet cfg s =
      let limits = limits_of cfg in
      if ltb_ℤ limits.max_tx_pages_per_wallet (pos 1) || ltb_ℤ limits.max_tx_per_wallet (pos 1)
      then (empty_report, some (plain (codes "invalid wallet run bounds for " ++ wallet)), s)
      else run_within_limits world.wallet_locks cfg limits s
