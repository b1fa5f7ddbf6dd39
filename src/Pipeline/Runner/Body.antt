-- ===== src/Pipeline/Runner/Body.antt =====
-- The calls of `RunWallet` in their order.
use poison_trace.Base.{ℕ, true, ◌++◌, some, if◌then◌else◌}
use poison_trace.Text.{Str, codes, decimal}
use poison_trace.Errors.{ok}
use poison_trace.Errors.Actions.{◌>>=◌, done}
use poison_trace.Helius.{Client}
use poison_trace.Runs.{WalletStatus, WalletSyncWindow}
use poison_trace.Pipeline.Validation.{LookalikeParams, CoreSyncParams}
use poison_trace.Pipeline.Core.Sync.{CoreSyncResult, run_wallet_core_sync}
use poison_trace.Pipeline.Dust.{build_dust_classifier}
use poison_trace.Pipeline.Runner.{
  dust_threshold_load_failed, transfer_upsert_failed, candidate_insert_failed,
  wallet_sync_progress_update_failed, wallet_last_synced_update_failed, Store, dedupe_transfers,
  WalletRunLimits,
}
use poison_trace.Pipeline.Runner.Run.{
  fail_with, partial_with, core_sync_error, copy_counters, core_progress,
}
use poison_trace.Pipeline.Runner.Steps.{Step, attempt, assign, locals, link_observations}

module _ {S : Type 0} (sha256_hex : Str → Str) (lookalike : LookalikeParams) (store : Store S)
    (client : Client S) where
  unfoldable pub core_params : Str → WalletSyncWindow → WalletRunLimits → CoreSyncParams
  core_params wallet window limits = record {
    focal_wallet_address = wallet;
    baseline_start = window.baseline_start;
    baseline_end = window.baseline_end;
    scan_start = window.scan_start;
    scan_end = window.scan_end;
    max_tx_pages_per_wallet = limits.max_tx_pages_per_wallet;
    max_tx_per_wallet = limits.max_tx_per_wallet;
    max_helius_retries = limits.max_helius_retries;
    helius_request_delay = limits.helius_request_delay;
    lookalike = lookalike;
  }

  -- The classifier and the core sync.
  unfoldable pub sync_core : Str → WalletSyncWindow → WalletRunLimits → Step S CoreSyncResult
  unfolding core_params
  sync_core wallet window limits = do
    classifier ←
        attempt (codes "build dust classifier") (λ e _. fail_with dust_threshold_load_failed e)
          (do
            rows ← store.list_dust_thresholds window.baseline_start window.scan_end
            done (build_dust_classifier rows))
    res ←
        attempt (codes "run wallet core sync") (λ e s. core_sync_error (store.deadline_passed s) e)
          (run_wallet_core_sync sha256_hex (some client) (core_params wallet window limits)
            (some classifier))
    _ ← assign (copy_counters res)
    done (ok res)

  -- Transfers, links and counterparties, candidates: the number of candidates inserted.
  unfoldable pub persist : ℕ → ℕ → CoreSyncResult → Step S ℕ
  persist wallet_id run_id res = do
    inserted ←
        attempt (codes "upsert normalized transfers") (λ e _. fail_with transfer_upsert_failed e)
          (store.upsert_normalized_transfers
            (dedupe_transfers (res.baseline_transfers ++ res.scan_transfers)))
    _ ← assign (λ l. record l { counters = record l.counters { transactions_inserted = inserted } })
    _ ← link_observations store wallet_id (res.baseline_observations ++ res.scan_observations)
    candidates ←
        attempt (codes "insert poisoning candidates")
          (λ e _.
            partial_with candidate_insert_failed
              (codes "unknown_required_gates:candidate_persistence_failed") e)
          (store.insert_poisoning_candidates run_id wallet_id res.candidates)
    _ ← assign (λ l. record l {
      counters = record l.counters { poisoning_candidates_inserted = candidates };
      progress = core_progress res candidates l.counters;
    })
    done (ok candidates)

  -- The last two calls, and the status of a run that got through.
  unfoldable pub conclude : ℕ → ℕ → WalletSyncWindow → ℕ → Step S (Unit {0})
  conclude wallet_id run_id window candidates = do
    l ← locals
    _ ←
        attempt (codes "update wallet sync progress")
          (λ e _.
            partial_with wallet_sync_progress_update_failed
              (codes "unknown_required_gates:wallet_progress_persistence_failed") e)
          (store.update_wallet_sync_progress run_id l.progress)
    _ ← assign (λ m. record m { progress_persisted = true })
    _ ←
        attempt (codes "update wallet last_synced_at")
          (λ e _.
            partial_with wallet_last_synced_update_failed
              (codes "unknown_required_gates:wallet_metadata_update_failed") e)
          (store.update_wallet_last_synced_at wallet_id window.scan_end)
    assign (λ m. record m {
      status =
          (if m.progress.incomplete_window then WalletStatus.partial else WalletStatus.succeeded);
      notes = codes "candidates_inserted=" ++ decimal candidates;
    })

  -- All that runs before the deferred function.
  unfoldable pub wallet_body : Str → ℕ → ℕ → WalletSyncWindow → WalletRunLimits → Step S (Unit {0})
  wallet_body wallet wallet_id run_id window limits = do
    res ← sync_core wallet window limits
    candidates ← persist wallet_id run_id res
    conclude wallet_id run_id window candidates
