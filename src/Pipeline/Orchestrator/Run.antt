-- ===== src/Pipeline/Orchestrator/Run.antt =====
-- internal/pipeline/orchestrator.go: Run, from its parameters to its error. The wallets run
-- concurrently: what they do, and the order in which their outcomes arrive, is a parameter.
pub mod Accepted
pub mod Finished
use poison_trace.Base.{
  ℕ, pos, ltb_ℤ, leb_ℤ, ltb, Bool, true, not, List, [], ◌∷◌, ◌++◌, Option, none, some,
  if◌then◌else◌, ◌==◌, length,
}
use poison_trace.Text.{Str, codes, str_lt, decimal, join}
use poison_trace.Text.Digits.{decimal_int}
use poison_trace.Text.Sort.{sort_by}
use poison_trace.Errors.{ErrorChain, Action, Result, ok, err, plain, wrap}
use poison_trace.Errors.Actions.{proceed, within}
use poison_trace.Config.{Config}
use poison_trace.Runs.{RunStatus, Counters}
use poison_trace.Wallets.{normalize_addresses, load_addresses_excluding_file}
use poison_trace.Pipeline.Runner.{RunParams}
use poison_trace.Pipeline.Orchestrator.{WalletOutcome, Tally, tally_outcomes, derive_run_status}

-- `RunRepository`, with the clock's time left to it.
pub record RunRepository (S : Type 0) : Type 0 where
  pub create_ingestion_run : Action S ℕ
  pub finalize_ingestion_run : ℕ → RunStatus → Counters → Str → Action S (Unit {0})

-- What `Run` calls: the lines that are read of the wallet file and of the file of wallets to leave
-- out, the run's repository, whether a wallet runner is set, the goroutines of the wallets with their
-- outcomes in the order of arrival, and `runCtx.Err()`.
pub record RunWorld (S : Type 0) : Type 0 where
  pub read_wallet_files : Action S (List Str × List Str)
  pub run_repo : Option (RunRepository S)
  pub has_wallet_runner : Bool
  pub run_wallets : List Str → RunParams → S → List WalletOutcome × S
  pub context_error : S → Option ErrorChain

abbrev too_many : ℕ → Config → ErrorChain
too_many total cfg = plain (
    codes "wallet address count "
    ++ (decimal total
        ++ (codes " exceeds MAX_WALLETS_PER_RUN=" ++ decimal_int cfg.max_wallets_per_run)))

module _ {S : Type 0} (world : RunWorld S) (cfg : Config) where
  -- `walletList`, before it is sorted.
  unfoldable pub wallet_list : RunParams → Action S (List Str)
  wallet_list p s =
      let (loaded, total) = normalize_addresses p.wallet_addresses cfg.max_wallets_per_run in
      if ltb 0 (length p.wallet_addresses)
      then (if ltb (length loaded) total then err (too_many total cfg) else ok loaded, s)
      else proceed (world.read_wallet_files s) (λ (lines, excluded) t.
        (ok (load_addresses_excluding_file lines excluded cfg.max_wallets_per_run), t))

  unfoldable pub create_run : Option (RunRepository S) → RunParams → Action S RunParams
  create_run none p s = (ok p, s)
  create_run (some repo) p s =
      if p.ingestion_run_id == 0
      then proceed (within (codes "create ingestion run") repo.create_ingestion_run s)
          (λ id t. (ok (record p { ingestion_run_id = id }), t))
      else (ok p, s)

  -- The tests on the list of wallets and on the runner, then the run's number.
  unfoldable pub start_run : RunParams → List Str → Action S (List Str × RunParams)
  unfolding create_run
  start_run p found s =
      let list = sort_by str_lt found in
      if length list == 0
      then (err (plain (codes "no wallets to process")), s)
      else if not world.has_wallet_runner
      then (err (plain (codes "wallet runner is not configured")), s)
      else proceed (create_run world.run_repo p s) (λ q t. (ok (list, q), t))

  -- `if p.BaselineLookbackDays < 1 { p.BaselineLookbackDays = o.cfg.BaselineLookbackDays }`.
  abbrev pub with_baseline : RunParams → RunParams
  with_baseline p =
      if ltb_ℤ p.baseline_lookback_days (pos 1)
      then record p { baseline_lookback_days = cfg.baseline_lookback_days }
      else p

  -- `Run` up to its goroutines.
  unfoldable pub prepare_run : RunParams → Action S (List Str × RunParams)
  unfolding wallet_list start_run
  prepare_run p s =
      let q = with_baseline p in
      if not (ltb p.scan_start p.scan_end)
      then (err (plain (codes "scan window must satisfy scan_start < scan_end")), s)
      else if leb_ℤ q.baseline_lookback_days (pos 0)
      then (err (plain (codes "baseline lookback days must be >= 1")), s)
      else proceed (wallet_list q s) (λ found t. start_run q found t)

  -- The last two tests.
  unfoldable pub close_run : List Str → S → Result (Unit {0}) × S
  close_run errs s =
      let text = codes "run completed with wallet errors: " ++ join (codes "; ") errs in
      if ltb 0 (length errs)
      then (err (plain text), s)
      else elim (world.context_error s) [ none ↦ (ok tt, s) | some e ↦ (err e, s) ]

  unfoldable pub after_finalize : List Str → Result (Unit {0}) × S → Result (Unit {0}) × S
  unfolding close_run
  after_finalize errs (ok _, s) = close_run errs s
  after_finalize errs (err e, s) =
      if length errs == 0
      then (err (wrap (codes "finalize ingestion run") e), s)
      else close_run (errs ++ (codes "finalize ingestion run: " ++ e.message) ∷ []) s

  -- What the run's repository is told at the end.
  unfoldable pub finalize_run : RunRepository S → ℕ → Tally → Action S (Unit {0})
  finalize_run repo id t s =
      repo.finalize_ingestion_run id
        (derive_run_status (world.context_error s) t.total (length t.errs) t.partial_wallets)
        t.total (join (codes "; ") t.errs) s

  -- `Run` behind the loop over the outcomes.
  unfoldable pub settle_run : ℕ → Tally → Action S (Unit {0})
  unfolding after_finalize finalize_run
  settle_run id t s = elim world.run_repo [
    | none ↦ close_run t.errs s
    | some repo ↦ after_finalize t.errs (finalize_run repo id t s)
  ]

  unfoldable pub run_tally : List Str × RunParams → Action S (Unit {0})
  unfolding settle_run
  run_tally (list, p) s =
      let (outcomes, t) = world.run_wallets list p s in
      settle_run p.ingestion_run_id (tally_outcomes (length list) outcomes) t

  unfoldable pub run : RunParams → Action S (Unit {0})
  unfolding prepare_run run_tally
  run p s = proceed (prepare_run p s) (λ start t. run_tally start t)
