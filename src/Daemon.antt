-- ===== src/Daemon.antt =====
-- cmd/scanner/daemon.go: the options of the daemon, the estimate of a cycle's credits, the daily
-- budget and the limiter of requests. The flags, the database's lock, signals and logs are left out.
-- An operation that reads the clock takes the time as an argument.
pub mod Accepted
pub mod Cycle
pub mod Estimate
pub mod Budget
pub mod Limiter
use poison_trace.Base.{
  ℕ, ◌+◌, ◌*◌, ◌-◌, ◌/◌, ◌%◌, max, ℤ, pos, negsuc, pos_part, ltb_ℤ, leb_ℤ, add_ℤ, add_int64,
  signed64, ltb, Bool, true, false, not, ◌&&◌, ◌||◌, List, [], ◌∷◌, ◌++◌, Option, none, some,
  if◌then◌else◌, ◌==◌,
}
use poison_trace.Text.{Str, codes, str_eq, is_empty}
use poison_trace.Time.{Time, second, day, after}
use poison_trace.Errors.{ErrorChain}
use poison_trace.Config.{Config}
use poison_trace.WalletSource.{victim_inbound_dust, attacker_outbound_dust}

-- The intervals are in nanoseconds.
pub record DaemonOptions : Type 0 where
  pub once : Bool
  pub work_dir : Str
  pub cycle_interval : ℤ
  pub daily_credit_budget : ℤ
  pub rpc_rps : ℤ
  pub enhanced_rps : ℤ
  pub max_helius_retries : ℤ
  pub target_count : ℤ
  pub run_max_tx_pages : ℤ
  pub run_max_tx_per_wallet : ℤ
  pub run_max_concurrent : ℤ
  pub max_blocks : ℤ
  pub block_lookback : ℤ
  pub max_tx_per_block : ℤ
  pub max_scraped_wallets : ℤ
  pub min_scrape_count : ℤ
  pub max_seed_wallets : ℤ
  pub max_candidates : ℤ
  pub candidate_max_pages : ℤ
  pub source_max_tx_per_wallet : ℤ
  pub max_accepted_tx : ℤ
  pub min_native_lamports : ℤ
  pub scan_window_days : ℤ
  pub baseline_lookback_days : ℤ
  pub max_same_timestamp_tx : ℤ
  pub max_transfers_per_tx : ℤ
  pub max_unknown_dust_spl : ℤ
  pub min_scan_inbound_dust : ℤ
  pub min_unique_dust_recipients : ℤ
  pub deep_dive_top_n : ℤ
  pub deep_dive_max_pages : ℤ
  pub deep_dive_max_tx : ℤ
  pub deep_dive_min_score : ℤ
  pub max_noisy_instructions : ℤ
  pub min_outbound : ℤ
  pub source_mode : Str

-- The requests that a cycle may make to the enhanced API, each with its retries.
unfoldable pub enhanced_attempts : DaemonOptions → ℕ
enhanced_attempts opts =
    (pos_part opts.max_candidates * pos_part opts.candidate_max_pages
      + pos_part opts.deep_dive_top_n * pos_part opts.deep_dive_max_pages
      + pos_part opts.target_count * pos_part opts.run_max_tx_pages * 2)
    * (pos_part opts.max_helius_retries + 1)

-- The estimate before it is cut to 64 bits. No number in it is negative where it is called.
unfoldable pub exact_credits : DaemonOptions → ℕ
unfolding enhanced_attempts
exact_credits opts = (1 + pos_part opts.max_blocks) * 1 + enhanced_attempts opts * 100

unfoldable pub estimate_daemon_cycle_credits : DaemonOptions → ℤ
unfolding exact_credits
estimate_daemon_cycle_credits opts = signed64 (exact_credits opts)

-- `v < low || v > high`.
abbrev outside : ℤ → ℤ → ℤ → Bool
outside low high v = ltb_ℤ v low || ltb_ℤ high v

-- The texts of the errors; the last one also names the estimate.
unfoldable pub validate_daemon_options : Config → DaemonOptions → Option Str
validate_daemon_options cfg opts =
    if is_empty opts.work_dir
    then some (codes "work-dir is required")
    else if ltb_ℤ opts.cycle_interval (pos (60 * second)) && not opts.once
    then some (codes "cycle-interval must be >= 1m")
    else if ltb_ℤ opts.daily_credit_budget (pos 1)
    then some (codes "daily-credit-budget must be >= 1")
    else if outside (pos 1) (pos 10) opts.rpc_rps
    then some (codes "rpc-rps must be between 1 and 10 for Helius Free")
    else if outside (pos 1) (pos 2) opts.enhanced_rps
    then some (codes "enhanced-rps must be between 1 and 2 for Helius Free")
    else if outside (pos 0) cfg.max_helius_retries opts.max_helius_retries
    then some (codes "max-helius-retries must be between 0 and MAX_HELIUS_RETRIES")
    else if outside (pos 1) cfg.max_wallets_per_run opts.target_count
    then some (codes "target-count must be between 1 and MAX_WALLETS_PER_RUN")
    else if outside (pos 1) cfg.max_tx_pages_per_wallet opts.run_max_tx_pages
    then some (codes "run-max-tx-pages must be between 1 and MAX_TX_PAGES_PER_WALLET")
    else if outside (pos 1) cfg.max_tx_per_wallet opts.run_max_tx_per_wallet
    then some (codes "run-max-tx-per-wallet must be between 1 and MAX_TX_PER_WALLET")
    else if outside (pos 1) cfg.max_concurrent_wallets opts.run_max_concurrent
        || ltb_ℤ opts.target_count opts.run_max_concurrent
    then some (
        codes
          "run-max-concurrent-wallets must be between 1 and both MAX_CONCURRENT_WALLETS and target-count")
    else if ltb_ℤ opts.max_blocks (pos 1)
        || ltb_ℤ opts.block_lookback (pos 1)
        || ltb_ℤ opts.max_tx_per_block (pos 1)
    then some (codes "block scrape bounds must be >= 1")
    else if ltb_ℤ opts.max_scraped_wallets (pos 1)
        || ltb_ℤ opts.max_seed_wallets (pos 1)
        || ltb_ℤ opts.max_candidates (pos 1)
    then some (codes "source wallet bounds must be >= 1")
    else if ltb_ℤ opts.min_scrape_count (pos 0)
    then some (codes "min-scrape-count must be >= 0")
    else if ltb_ℤ opts.candidate_max_pages (pos 1)
        || ltb_ℤ opts.source_max_tx_per_wallet (pos 1)
        || ltb_ℤ opts.max_accepted_tx (pos 1)
    then some (codes "source sampling bounds must be >= 1")
    else if ltb_ℤ opts.deep_dive_top_n (pos 0)
        || ltb_ℤ opts.deep_dive_max_pages (pos 1)
        || ltb_ℤ opts.deep_dive_max_tx (pos 1)
        || ltb_ℤ opts.deep_dive_min_score (pos 1)
    then some
        (codes "deep-dive bounds must satisfy top-n>=0, max-pages>=1, max-tx>=1, min-score>=1")
    else if ltb_ℤ opts.scan_window_days (pos 1)
        || leb_ℤ opts.baseline_lookback_days opts.scan_window_days
    then some (codes "baseline-lookback-days must be greater than scan-window-days")
    else if ltb_ℤ opts.min_unique_dust_recipients (pos 1)
    then some (codes "min-unique-dust-recipients must be >= 1")
    else if not (str_eq opts.source_mode attacker_outbound_dust)
        && not (str_eq opts.source_mode victim_inbound_dust)
    then some (codes "source-mode must be \"attacker_outbound_dust\" or \"victim_inbound_dust\"")
    else if ltb_ℤ opts.daily_credit_budget (estimate_daemon_cycle_credits opts)
    then some (codes "daily-credit-budget is below one cycle worst-case estimate")
    else none

-- `requestLimiter`: the interval in nanoseconds, and the earliest time of the next request.
pub record RequestLimiter : Type 0 where
  pub interval : ℕ
  pub next : Time

unfoldable pub new_request_limiter : ℤ → RequestLimiter
new_request_limiter rps = record { interval = second / max (pos_part rps) 1; next = 0 }

-- The locked part of `Wait` at the time `now`: when the request may go, and the limiter after it.
unfoldable pub reserve_slot : Time → RequestLimiter → Time × RequestLimiter
reserve_slot now l =
    let when = if after l.next now then l.next else now in
    (when, record l { next = when + l.interval })

-- `dailyCreditBudget`; the day is the number of days since the zero time, 0 for the empty text of a
-- new budget.
pub record DailyCreditBudget : Type 0 where
  pub limit : ℤ
  pub day_number : ℕ
  pub used : ℤ

unfoldable pub new_daily_credit_budget : ℤ → DailyCreditBudget
new_daily_credit_budget limit = record { limit = limit; day_number = 0; used = pos 0 }

-- `b.day = day; b.used = 0` on a new day.
unfoldable pub start_day : ℕ → DailyCreditBudget → DailyCreditBudget
start_day today b =
    if b.day_number == today then b else record b { day_number = today; used = pos 0 }

-- The test against the limit, and `b.used += credits`; the sum wraps around at 64 bits.
unfoldable pub charge : ℤ → DailyCreditBudget → Bool × DailyCreditBudget
charge credits b =
    if ltb_ℤ b.limit (add_int64 b.used credits)
    then (false, b)
    else (true, record b { used = add_int64 b.used credits })

-- `Reserve` at the time `now`: whether the credits are granted, and the budget after it.
unfoldable pub reserve : Time → ℤ → DailyCreditBudget → Bool × DailyCreditBudget
unfolding start_day charge
reserve now credits b =
    if leb_ℤ b.limit (pos 0) then (true, b) else charge credits (start_day (now / day) b)
