-- ===== src/Tests/Outcomes.antt =====
-- Runs of wallets: the store, the lock, the thresholds, the totals and the lists of addresses.
use poison_trace.Text.Sort.{insert_by, sort_by}
use poison_trace.Dict.{get_or, put}
use poison_trace.Text.Digits.{big_int}
use mathlib.Core.List.Permᴰ
use poison_trace.Base.{
  ◌++◌, true, ◌↔◌, ◌+◌, pos, false, List, [], ◌∷◌, length, count_by, any, none, some, here, ◌≡◌,
  refl, if◌then◌else◌, leb,
}
use poison_trace.Text.{codes}
use poison_trace.Text.Trim.{trim_space}
use poison_trace.Time.{day}
use poison_trace.Errors.{ok}
use poison_trace.Transactions.{NormalizedTransfer, dust_true, dust_false}
use poison_trace.Wallets.{load_loop, load_addresses_excluding_file}
use poison_trace.Wallets.Bounded.{IsLoad, load_addresses_excluding_file-IsLoad}
use poison_trace.Pipeline.Fetch.{max_tx_per_wallet_reached, helius_retry_exhausted}
use poison_trace.Pipeline.Core.{merge_reasons}
use poison_trace.Pipeline.Core.Reasons.{merge_reasons-perm}
use poison_trace.Pipeline.Core.Sync.{code_text}
use poison_trace.Pipeline.Dust.{
  natural_amount, covers, index_rules, rule_of, build_rules, sort_rules, has_overlap, DustThreshold,
  DustRule, build_dust_classifier, classify_dust,
}
use poison_trace.Pipeline.Dust.Build.{build_dust_classifier-row}
use poison_trace.Pipeline.Runner.{
  RunParams, dedupe_transfers, transfer_key, merge_truncation_reason,
}
use poison_trace.Pipeline.Runner.Dedupe.{has_key, dedupe_transfers-count}
use poison_trace.Pipeline.Runner.Finish.{empty_report}
use poison_trace.Pipeline.Orchestrator.{
  WalletOutcome, Locks, WalletWorld, tally_outcomes, run_one_wallet, is_cap_hit,
  err_wallet_already_locked,
}
use poison_trace.Runs.{RunStatus}
use poison_trace.Pipeline.Orchestrator.{derive_run_status}
use poison_trace.Pipeline.Orchestrator.Success.{is_bad, is_stopped, derive_run_status_iff}
use poison_trace.Pipeline.Orchestrator.Lock.{LockEvent, took, ran, gave, Ends, run_one_wallet-Ends}
use poison_trace.Pipeline.Orchestrator.Totals.{settled, tally_outcomes-counts}
use poison_trace.Pipeline.Orchestrator.CapHits.{is_cap_hit-false}
use poison_trace.Tests.Configs.{loaded}
use poison_trace.Tests.Data.{focal, friend, stranger, transfer, noon}

-- One threshold for SOL, without an end.
abbrev sol_row : DustThreshold
sol_row = record {
  asset_key = codes "SOL";
  amount_raw = codes "10";
  active_from = 0;
  active_to = none;
}

abbrev sol_rule : DustRule
sol_rule = record { from = 0; to = none; threshold = 10 }

abbrev small : NormalizedTransfer
small = transfer friend focal (codes "5") noon

build_dust_classifier-row_example :
    classify_dust ((codes "SOL", sol_rule ∷ []) ∷ []) small
    ≡ (if leb 5 10 then dust_true else dust_false)
unfolding build_dust_classifier build_rules index_rules rule_of trim_space natural_amount big_int
    sort_rules put has_overlap sort_by get_or insert_by covers
build_dust_classifier-row_example =
    build_dust_classifier-row (sol_row ∷ []) (classify_dust ((codes "SOL", sol_rule ∷ []) ∷ []))
      sol_row sol_rule small 5 refl (here refl) refl refl refl

dedupe_transfers-count_example :
    count_by (has_key (transfer_key small)) (dedupe_transfers (small ∷ small ∷ []))
    ≡ (if any (has_key (transfer_key small)) (small ∷ small ∷ []) then 1 else 0)
dedupe_transfers-count_example = dedupe_transfers-count (small ∷ small ∷ []) (transfer_key small)

merge_reasons-perm_example :
    merge_reasons (codes "b" ∷ codes "a" ∷ []) ≡ merge_reasons (codes "a" ∷ codes "b" ∷ [])
merge_reasons-perm_example =
    merge_reasons-perm (Permᴰ.swap {a = codes "b"} {b = codes "a"} {l = []} refl refl)

is_cap_hit-false_example :
    is_cap_hit (
      merge_truncation_reason
        (code_text max_tx_per_wallet_reached)
        (code_text helius_retry_exhausted))
    ≡ false
is_cap_hit-false_example = is_cap_hit-false max_tx_per_wallet_reached helius_retry_exhausted

load_addresses_excluding_file-IsLoad_example :
    IsLoad (load_loop [] (pos 0) [] (stranger ∷ [])) (pos 1) (
      load_addresses_excluding_file
        (stranger ∷ friend ∷ friend ∷ focal ∷ [])
        (stranger ∷ [])
        (pos 1))
load_addresses_excluding_file-IsLoad_example =
    load_addresses_excluding_file-IsLoad (stranger ∷ friend ∷ friend ∷ focal ∷ []) (stranger ∷ [])
      (pos 1)

abbrev outcomes : List WalletOutcome
outcomes =
    record { address = friend; report = empty_report; error = none }
    ∷ record { address = focal; report = empty_report; error = some err_wallet_already_locked }
    ∷ []

tally_outcomes-counts_example :
    (settled (tally_outcomes 2 outcomes).total ≡ 2)
    × (length (tally_outcomes 2 outcomes).errs
        ≡ (tally_outcomes 2 outcomes).total.wallets_skipped
          + (tally_outcomes 2 outcomes).total.wallets_failed)
    × ((tally_outcomes 2 outcomes).total.wallets_requested ≡ 2)
tally_outcomes-counts_example = tally_outcomes-counts 2 outcomes

-- Locks that are always free, and a runner that does nothing; the world is the log.
abbrev free_locks : Locks (List LockEvent)
free_locks = record {
  acquire_wallet_lock = λ w ttl s. (ok (some (codes "token")), s ++ took w (codes "token") ∷ []);
  release_wallet_lock = λ w t s. (ok tt, s ++ gave w t ∷ []);
}

abbrev locked_world : WalletWorld (List LockEvent)
locked_world = record {
  wallet_locks = some free_locks;
  wallet_runner = λ w p l s. (empty_report, none, s ++ ran w l ∷ []);
  context_error = λ s. none;
}

abbrev params : RunParams
params = record {
  wallet_addresses = focal ∷ [];
  scan_start = noon;
  scan_end = noon + day;
  baseline_lookback_days = pos 30;
  ingestion_run_id = 1;
}

run_one_wallet-Ends_example :
    Ends locked_world focal params
      (λ s. s)
      true
      loaded
      []
      (run_one_wallet locked_world focal params loaded [])
run_one_wallet-Ends_example =
    run_one_wallet-Ends locked_world focal params (λ s. s) loaded [] (λ w p l s. refl)
      (record { acquire_log = λ w ttl s. refl; release_log = λ w t s. refl })

derive_run_status_iff_example :
    (derive_run_status none
        (tally_outcomes 2 outcomes).total
        (length (tally_outcomes 2 outcomes).errs)
        (tally_outcomes 2 outcomes).partial_wallets
      ≡ RunStatus.succeeded)
    ↔ ((is_stopped none ≡ false) × (count_by is_bad outcomes ≡ 0))
derive_run_status_iff_example = derive_run_status_iff none 2 outcomes
