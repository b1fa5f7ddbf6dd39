-- ===== src/Pipeline/Runner/Finish.antt =====
-- The deferred finalization of `RunWallet`, and the checks before its calls.
use poison_trace.Base.{ℕ, false, not, ◌&&◌, [], ◌++◌, Option, none, some, if◌then◌else◌, ◌==◌}
use poison_trace.Text.{Str, codes}
use poison_trace.Text.Trim.{is_blank}
use poison_trace.Errors.{ErrorChain, Result, ok, err, plain, wrap}
use poison_trace.Helius.{Client}
use poison_trace.Runs.{WalletStatus, WalletSyncWindow, zero_counters, build_window}
use poison_trace.Pipeline.Validation.{LookalikeParams}
use poison_trace.Pipeline.Runner.{FinalState, Store, WalletRunReport, WalletRunLimits, RunParams}
use poison_trace.Pipeline.Runner.Run.{Locals, initial}
use poison_trace.Pipeline.Runner.Body.{wallet_body}

-- What the deferred function stores.
unfoldable pub final_state : Locals → FinalState
final_state l = record {
  status = l.status;
  incomplete = l.progress.incomplete_window;
  reason =
      (if l.progress.incomplete_window && is_blank l.progress.unknown_gate_reason
        then codes "unknown_required_gates:runner_incomplete_without_reason"
        else l.progress.unknown_gate_reason);
  error_code = l.error_code;
  error_message = l.error_message;
  notes = l.notes;
}

unfoldable pub report_of : Locals → WalletRunReport
report_of l = record {
  wallet_status = l.status;
  incomplete_window = l.progress.incomplete_window;
  truncation_observed = not (is_blank l.progress.truncation_reason);
  truncation_reason = l.progress.truncation_reason;
  counters = l.counters;
}

-- The error of the run, once the finalization has answered.
unfoldable pub join_errors : Result (Unit {0}) → Result (Unit {0}) → Option ErrorChain
join_errors (ok _) (ok _) = none
join_errors (ok _) (err f) = some (wrap (codes "finalize wallet sync run") f)
join_errors (err e) (ok _) = some e
join_errors (err e) (err f) =
    some (record e { message = e.message ++ (codes "; finalize wallet sync run: " ++ f.message) })

module _ {S : Type 0} (store : Store S) where
  abbrev Reply : Type 0
  Reply = WalletRunReport × Option ErrorChain × S

  unfoldable pub finalize : ℕ → Result (Unit {0}) × (Locals × S) → Reply
  unfolding final_state report_of join_errors
  finalize run_id (r, (l, s)) =
      let (f, t) = store.finalize_wallet_sync_run run_id (final_state l) s in
      (report_of l, join_errors r f, t)

abbrev pub empty_report : WalletRunReport
empty_report = record {
  wallet_status = WalletStatus.failed;
  incomplete_window = false;
  truncation_observed = false;
  truncation_reason = [];
  counters = zero_counters;
}

module _ {S : Type 0} (sha256_hex : Str → Str) (lookalike : LookalikeParams) (store : Store S)
    (client : Client S) (wallet : Str) (p : RunParams) (limits : WalletRunLimits) where
  -- Behind the creation of the sync run: the body, and then the deferred function.
  unfoldable pub run_created :
      ℕ → WalletSyncWindow → Result ℕ × S → WalletRunReport × Option ErrorChain × S
  run_created wallet_id window (err e, s) =
      (empty_report, some (wrap (codes "create wallet sync run") e), s)
  run_created wallet_id window (ok run_id, s) = finalize store run_id (
      wallet_body sha256_hex lookalike store client wallet wallet_id run_id window limits
        (initial, s))

  unfoldable pub run_ensured : Result ℕ × S → WalletRunReport × Option ErrorChain × S
  unfolding run_created
  run_ensured (err e, s) = (empty_report, some (wrap (codes "ensure wallet") e), s)
  run_ensured (ok wallet_id, s) =
      let window = build_window p.scan_start p.scan_end p.baseline_lookback_days in
      run_created wallet_id window
        (store.create_wallet_sync_run p.ingestion_run_id wallet_id window s)

abbrev refuse : {S : Type 0} → Str → S → WalletRunReport × Option ErrorChain × S
refuse text s = (empty_report, some (plain text), s)

-- `RunWallet`; no store and no client are `nil`.
unfoldable pub run_wallet :
    {S : Type 0}
    → (Str → Str)
    → LookalikeParams
    → Option (Store S)
    → Option (Client S)
    → Str
    → RunParams
    → WalletRunLimits
    → S
    → WalletRunReport × Option ErrorChain × S
unfolding run_ensured
run_wallet sha256_hex lookalike store client wallet p limits s =
    if is_blank wallet
    then refuse (codes "wallet address is required") s
    else if p.ingestion_run_id == 0
    then refuse (codes "ingestion run id is required for wallet execution") s
    else elim store [
      | none ↦ refuse (codes "wallet execution store is required") s
      | some st ↦ elim client [
        | none ↦ refuse (codes "helius client is required") s
        | some cl ↦
            run_ensured sha256_hex lookalike st cl wallet p limits (st.ensure_wallet wallet s)
      ]
    ]
