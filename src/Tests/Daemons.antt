-- ===== src/Tests/Daemons.antt =====
-- A configuration from an environment, a limiter, a budget and a cycle of the daemon.
use poison_trace.Text.Trim.{is_blank}
use poison_trace.Text.Case.{equal_fold}
use poison_trace.Base.{
  ℕ, ◌+◌, ◌*◌, ◌/◌, ◌≤◌, max, pos, negsuc, pos_part, true, false, List, [], ◌∷◌, some,
  if◌then◌else◌, ◌≡◌, refl, arith,
}
use poison_trace.Text.{decimal, Str, codes, str_eq}
use poison_trace.Text.Digits.{decimal_int}
use poison_trace.Time.{Time, second, day}
use poison_trace.Errors.{Result, ok, ◌>>=◌}
use poison_trace.WalletSource.{ScrapedWallet}
use poison_trace.WalletSource.Run.{source}
use poison_trace.Config.{
  is_int64, Environment, get_env_int, load_base_config_from_env, checked, validate_read_only_api,
  load_read_only_api_from_env,
}
use poison_trace.Config.Limits.{
  IsBounded, load_read_only_api_from_env-eq, load_read_only_api_from_env-IsBounded,
}
use poison_trace.Config.Reading.{get_env_int-decimal_int}
use poison_trace.Daemon.{
  validate_daemon_options, DaemonOptions, DailyCreditBudget, new_request_limiter, reserve,
  estimate_daemon_cycle_credits,
}
use poison_trace.Daemon.Budget.{granted, granted-bounded, reserve-granted}
use poison_trace.Daemon.Cycle.{source_options}
use poison_trace.Daemon.Estimate.{source_options-affordable}
use poison_trace.Daemon.Limiter.{slots, IsSpaced, AreNoEarlier, new_request_limiter-IsSpaced}
use poison_trace.Tests.Configs.{loaded}
use poison_trace.Tests.Data.{focal, no_hash}
use poison_trace.Tests.Sources.{quiet_files, quiet_files-KeepsCount}
use poison_trace.Tests.Windows.{one_page, one_page-CountsRequests}

-- An environment with a database and a number.
abbrev environment : Environment
environment key =
    if str_eq key (codes "DATABASE_URL")
    then codes "postgres://db"
    else if str_eq key (codes "MAX_HELIUS_RETRIES")
    then codes "-3"
    else []

abbrev fixed : Environment
fixed key = if str_eq key (codes "DATABASE_URL") then codes "postgres://db" else []

-- Every URI is well formed and has the scheme https.
abbrev any_uri : Str → Result Str
any_uri s = ok (codes "https")

get_env_int-decimal_int_example :
    get_env_int environment (codes "MAX_HELIUS_RETRIES") (pos 4) ≡ ok (negsuc 2)
unfolding decimal_int str_eq decimal is_int64
get_env_int-decimal_int_example =
    get_env_int-decimal_int environment (codes "MAX_HELIUS_RETRIES") (pos 4) (negsuc 2) refl refl

load_read_only_api_from_env-eq_example :
    load_read_only_api_from_env any_uri environment
    ≡ (load_base_config_from_env environment >>= checked any_uri (validate_read_only_api any_uri))
load_read_only_api_from_env-eq_example = load_read_only_api_from_env-eq any_uri environment

load_read_only_api_from_env-IsBounded_example : IsBounded loaded
unfolding load_read_only_api_from_env str_eq equal_fold is_blank
load_read_only_api_from_env-IsBounded_example =
    load_read_only_api_from_env-IsBounded any_uri fixed loaded refl

new_request_limiter-IsSpaced_example :
    IsSpaced (second / max 5 1) 0 (slots (7 ∷ 7 ∷ 3 ∷ []) (new_request_limiter (pos 5)))
    × AreNoEarlier (7 ∷ 7 ∷ 3 ∷ []) (slots (7 ∷ 7 ∷ 3 ∷ []) (new_request_limiter (pos 5)))
new_request_limiter-IsSpaced_example = new_request_limiter-IsSpaced (pos 5) (7 ∷ 7 ∷ 3 ∷ [])

-- A budget of which a part was used on an earlier day.
abbrev yesterday : DailyCreditBudget
yesterday = record { limit = pos 50_000; day_number = 6; used = pos 40_000 }

abbrev requests : List (Time × ℕ)
requests = (7 * day, 30_000) ∷ (7 * day + 1, 30_000) ∷ (7 * day + 2, 20_000) ∷ []

granted-bounded_example : granted requests yesterday ≤ 50_000
granted-bounded_example =
    granted-bounded 7 requests yesterday
      (record { limited = omega arith; counted = omega arith; bounded = omega arith })
      ((refl, omega arith), ((refl, omega arith), ((refl, omega arith), tt)))

abbrev daemon : DaemonOptions
daemon = record {
  once = false;
  work_dir = codes "artifacts/daemon";
  cycle_interval = pos (86_400 * second);
  daily_credit_budget = pos 50_000;
  rpc_rps = pos 5;
  enhanced_rps = pos 1;
  max_helius_retries = pos 1;
  target_count = pos 5;
  run_max_tx_pages = pos 5;
  run_max_tx_per_wallet = pos 400;
  run_max_concurrent = pos 1;
  max_blocks = pos 20;
  block_lookback = pos 250;
  max_tx_per_block = pos 200;
  max_scraped_wallets = pos 500;
  min_scrape_count = pos 2;
  max_seed_wallets = pos 120;
  max_candidates = pos 40;
  candidate_max_pages = pos 3;
  source_max_tx_per_wallet = pos 300;
  max_accepted_tx = pos 300;
  min_native_lamports = pos 10_000_000;
  scan_window_days = pos 7;
  baseline_lookback_days = pos 90;
  max_same_timestamp_tx = pos 5;
  max_transfers_per_tx = pos 4;
  max_unknown_dust_spl = pos 0;
  min_scan_inbound_dust = pos 1;
  min_unique_dust_recipients = pos 10;
  deep_dive_top_n = pos 7;
  deep_dive_max_pages = pos 8;
  deep_dive_max_tx = pos 900;
  deep_dive_min_score = pos 30;
  max_noisy_instructions = pos 0;
  min_outbound = pos 1;
  source_mode = codes "attacker_outbound_dust";
}

reserve-granted_example :
    (reserve (7 * day) (estimate_daemon_cycle_credits daemon) yesterday).0 ≡ true
unfolding validate_daemon_options str_eq estimate_daemon_cycle_credits
reserve-granted_example =
    reserve-granted loaded daemon (7 * day) yesterday refl refl (λ e. ground arith)

abbrev wallets : List ScrapedWallet
wallets = record { address = focal; count = 2; outbound = 2; inbound = 0 } ∷ []

source_options-affordable_example :
    (source no_hash
        (some one_page)
        quiet_files
        (source_options loaded daemon (800_000 * day) (codes "a") (codes "r") wallets)
        0).1
      * 100
    ≤ 0 * 100 + pos_part (estimate_daemon_cycle_credits daemon)
unfolding validate_daemon_options str_eq estimate_daemon_cycle_credits
source_options-affordable_example =
    source_options-affordable one_page quiet_files (λ n. n) one_page-CountsRequests
      quiet_files-KeepsCount no_hash loaded daemon (800_000 * day) (codes "a") (codes "r") wallets 0
      refl (omega arith)
