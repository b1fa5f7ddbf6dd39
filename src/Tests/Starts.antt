-- ===== src/Tests/Starts.antt =====
-- Runs of the orchestrator, whose world counts what the repository has taken.
use poison_trace.Dict.{has}
use poison_trace.Text.Trim.{trim_space}
use poison_trace.Wallets.{normalize_addresses}
use poison_trace.Base.{◌↔◌, ◌≡◌, refl, ℕ, ◌+◌, pos, true, [], ◌∷◌, none, some, map, refl}
use poison_trace.Text.{has_prefix, str_eq, str_lt}
use poison_trace.Text.Sort.{insert_by, sort_by}
use poison_trace.Time.{day}
use poison_trace.Errors.{ok}
use poison_trace.Errors.Actions.{within, OnOk, proceed}
use poison_trace.Pipeline.Runner.{RunParams}
use poison_trace.Pipeline.Runner.Finish.{empty_report}
use poison_trace.Pipeline.Orchestrator.{outcome_before, tally_outcomes}
use poison_trace.Pipeline.Orchestrator.Run.{RunRepository, RunWorld, prepare_run, run}
use poison_trace.Pipeline.Orchestrator.Run.Accepted.{IsPrepared, prepare_run-IsPrepared}
use poison_trace.Pipeline.Orchestrator.Run.Finished.{IsFinished, run_iff}
use poison_trace.Tests.Data.{focal, friend, noon}
use poison_trace.Tests.Configs.{loaded}

abbrev repo : RunRepository ℕ
repo = record {
  create_ingestion_run = λ s. (ok 7, s + 1);
  finalize_ingestion_run = λ id status total notes s. (ok tt, s + id);
}

-- Every wallet ends without an error.
abbrev all_well : RunWorld ℕ
all_well = record {
  read_wallet_files = λ s. (ok (friend ∷ focal ∷ friend ∷ [], focal ∷ []), s);
  run_repo = some repo;
  has_wallet_runner = true;
  run_wallets =
      λ list p s. (map (λ w. record { address = w; report = empty_report; error = none }) list, s);
  context_error = λ s. none;
}

abbrev given : RunParams
given = record {
  wallet_addresses = friend ∷ focal ∷ friend ∷ [];
  scan_start = noon;
  scan_end = noon + day;
  baseline_lookback_days = pos 0;
  ingestion_run_id = 0;
}

prepare_run-IsPrepared_example : OnOk (IsPrepared loaded) (prepare_run all_well loaded given 0)
prepare_run-IsPrepared_example = prepare_run-IsPrepared all_well loaded given 0

run_iff_example : (run all_well loaded given 0 ≡ (ok tt, 8)) ↔ IsFinished all_well loaded given 0 8
run_iff_example = run_iff all_well loaded given 0 8

run_finishes : run all_well loaded given 0 ≡ (ok tt, 8)
unfolding run proceed normalize_addresses trim_space has_prefix has str_eq sort_by insert_by str_lt
    within tally_outcomes outcome_before
run_finishes = refl
