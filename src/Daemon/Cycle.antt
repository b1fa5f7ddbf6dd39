-- ===== src/Daemon/Cycle.antt =====
-- `runDaemonCycle` up to the scan of the accepted wallets: the reservation, the scrape and the source,
-- and what it passes on to each of them.
use poison_trace.Base.{
  ◌-◌, ◌*◌, ℤ, pos, pos_part, true, false, List, [], map, foldl, Option, none, some, if◌then◌else◌,
  is_nil,
}
use poison_trace.Text.{Str, codes}
use poison_trace.Time.{Time, day}
use poison_trace.Dict.{put}
use poison_trace.Errors.{ErrorChain, Action, Result, ok, err, plain}
use poison_trace.Errors.Actions.{◌>>=◌, done, proceed, within}
use poison_trace.Helius.{Client}
use poison_trace.Config.{Config}
use poison_trace.WalletSource.{Options, ScrapedWallet, SourceResult}
use poison_trace.WalletSource.Discovery.{Files}
use poison_trace.WalletSource.Run.{source}
use poison_trace.WalletSource.Blocks.{ScrapeOptions}
use poison_trace.WalletSource.Blocks.Scrape.{Rpc, scrape_recent_wallets}
use poison_trace.Daemon.{
  DaemonOptions, signed64, DailyCreditBudget, reserve, estimate_daemon_cycle_credits,
}

unfoldable pub scrape_options : DaemonOptions → ScrapeOptions
scrape_options opts = record {
  start_slot = pos 0;
  block_lookback = opts.block_lookback;
  max_blocks = opts.max_blocks;
  max_wallets = opts.max_scraped_wallets;
  max_tx_per_block = opts.max_tx_per_block;
  max_noisy_instructions = opts.max_noisy_instructions;
  min_native_lamports = opts.min_native_lamports;
  min_scrape_count = opts.min_scrape_count;
}

-- `time.Duration(ms) * time.Millisecond`, for a configured delay, which is not negative.
delay_of : ℤ → ℤ
delay_of ms = signed64 (pos_part ms * 1_000_000)

-- The times are those of the scan, `end` the clock's; the days are positive and small enough for a
-- `time.Duration`.
unfoldable pub source_options :
    Config → DaemonOptions → Time → Str → Str → List ScrapedWallet → Options
unfolding delay_of
source_options cfg opts end accepted_path rejected_path scraped = record {
  seed_wallet_file = [];
  seed_wallets = map (λ w. w.address) scraped;
  scrape_stats = foldl (λ m w. put m w.address w) [] scraped;
  score_seed_wallets = true;
  discover_neighbors = false;
  out_path = accepted_path;
  rejected_out_path = rejected_path;
  scan_start = end - (pos_part opts.scan_window_days * day);
  scan_end = end;
  baseline_lookback = pos_part opts.baseline_lookback_days * day;
  target_count = opts.target_count;
  max_seed_wallets = opts.max_seed_wallets;
  max_candidates = opts.max_candidates;
  seed_max_pages = pos 0;
  candidate_max_pages = opts.candidate_max_pages;
  max_tx_per_wallet = opts.source_max_tx_per_wallet;
  max_retries = opts.max_helius_retries;
  request_delay = delay_of cfg.helius_request_delay_ms;
  min_outbound = opts.min_outbound;
  max_accepted_tx = opts.max_accepted_tx;
  max_same_timestamp_tx = opts.max_same_timestamp_tx;
  max_transfers_per_tx = opts.max_transfers_per_tx;
  max_unknown_dust_spl = opts.max_unknown_dust_spl;
  min_scan_inbound_dust = opts.min_scan_inbound_dust;
  min_unique_dust_recipients = opts.min_unique_dust_recipients;
  known_dust_asset_keys = [];
  deep_dive_top_n = opts.deep_dive_top_n;
  deep_dive_max_pages = opts.deep_dive_max_pages;
  deep_dive_max_tx = opts.deep_dive_max_tx;
  deep_dive_min_score = opts.deep_dive_min_score;
  source_mode = opts.source_mode;
}

-- The configuration of the scan of the accepted wallets.
unfoldable pub run_config : Config → DaemonOptions → Config
run_config cfg opts = record cfg {
  max_wallets_per_run = opts.target_count;
  max_tx_pages_per_wallet = opts.run_max_tx_pages;
  max_tx_per_wallet = opts.run_max_tx_per_wallet;
  max_concurrent_wallets = opts.run_max_concurrent;
  max_helius_retries = opts.max_helius_retries;
}

-- What a cycle uses of other packages: paths, the text of a time, the clients that are made of the
-- configuration behind their limiters, and the scan, which is the orchestrator's run.
pub record Machine (S : Type 0) : Type 0 where
  pub files : Files S
  pub join_path : Str → Str → Str
  pub cycle_id : Time → Str
  pub rpc : Config → Result (Rpc S)
  pub enhanced : Config → Result (Client S)
  pub scan : Config → Client S → Str → Time → Time → ℤ → Action S Unit

unfoldable pub made : {S : Type 0} → Option ErrorChain × S → Result {0} Unit × S
made (none, s) = (ok tt, s)
made (some e, s) = (err e, s)

module _ {S : Type 0} (sha256_hex : Str → Str) (m : Machine S) (cfg : Config) (opts : DaemonOptions)
    (now : Time) where
  -- The directory of the cycle.
  unfoldable pub cycle_dir : Str
  cycle_dir = m.join_path opts.work_dir (m.cycle_id now)

  abbrev pub accepted_path : Str
  accepted_path = m.join_path cycle_dir (codes "accepted_wallets.txt")

  abbrev pub rejected_path : Str
  rejected_path = m.join_path cycle_dir (codes "rejected_wallets.tsv")

  unfoldable pub scan_accepted : Client S → SourceResult → Action S Unit
  unfolding within run_config
  scan_accepted client result =
      if is_nil result.accepted
      then done (ok tt)
      else within (codes "scanner run") (
          m.scan (run_config cfg opts) client accepted_path
            (now - (pos_part opts.scan_window_days * day)) now opts.baseline_lookback_days)

  unfoldable pub source_scraped : List ScrapedWallet → Action S Unit
  unfolding within proceed scan_accepted source source_options
  source_scraped scraped =
      if is_nil scraped
      then done (ok tt)
      else within (codes "helius enhanced client") (done (m.enhanced cfg)) >>= λ client.
          within (codes "source wallets") (
            source sha256_hex (some client) m.files
              (source_options cfg opts now accepted_path rejected_path scraped))
          >>= scan_accepted client

  -- The body of a cycle after its reservation; the clock is read once.
  unfoldable pub cycle_body : Action S Unit
  unfolding within proceed source_scraped scrape_recent_wallets made scrape_options
  cycle_body =
      within (codes "create daemon cycle dir") (λ s. made (m.files.mkdir_all cycle_dir s)) >>= λ _.
      within (codes "helius rpc client") (done (m.rpc cfg)) >>= λ rpc.
      within (codes "scrape wallets") (scrape_recent_wallets (some rpc) (scrape_options opts))
      >>= source_scraped

  -- A reservation that is not granted ends the cycle before anything else.
  unfoldable pub run_daemon_cycle :
      DailyCreditBudget → S → (Result {0} Unit × S) × DailyCreditBudget
  unfolding reserve cycle_body estimate_daemon_cycle_credits
  run_daemon_cycle budget s =
      let (granted, left) = reserve now (estimate_daemon_cycle_credits opts) budget in
      (
        if granted
            then cycle_body s
            else (err (plain (codes "daily Helius credit budget exhausted")), s),
        left,
      )
